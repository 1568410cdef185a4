-- ===== src/Tests/Hits.antt =====
-- The theorem on copies that are found again, at a concrete input.
use mt_hvac.Base.{
  ◌≡◌, refl, sym, subst, true, some, [], ◌∷◌, arith, Text, text, pos, int_key, text_key,
  update_self, nothing, returns,
}
use mt_hvac.Server.{State, close_handler, open_handler, enqueue, forget, path_of, redirect}
use mt_hvac.Mover.{drain, filename}
use mt_hvac.Mover.Copies.{opens, happens, history}
use mt_hvac.Mover.Pending.{AllCopied, copy_returns}
use mt_hvac.Mover.Hits.{closed-copied}
use mt_hvac.Tests.Node.{memory, bulk}
use mt_hvac.Tests.Servers.{entered, closed}

abbrev bb : Text
bb = text "/bb/XXXXXX"

abbrev other_opened : State memory
other_opened = (open_handler memory (text "/d/y") closed).1

abbrev hit : State memory
hit = (open_handler memory (text "/d/x") (drain memory bb other_opened)).1

closes : close_handler memory (pos 3) entered ≡ returns (tt, closed)
unfolding close_handler
closes = ground arith

first_events : history memory bulk bb (opens (text "/d/y") ∷ []) closed ≡ returns other_opened
unfolding history happens
first_events = refl

last_events :
    history memory bulk bb (opens (text "/d/x") ∷ []) (drain memory bb other_opened) ≡ returns hit
unfolding history happens
last_events = refl

one_queued : other_opened.data_queue ≡ text "/d/x" ∷ []
unfolding open_handler forget enqueue path_of
one_queued = ground arith

copied : copy_returns memory bb (text "/d/x") (record other_opened { data_queue = [] }) ≡ true
unfolding open_handler forget enqueue path_of filename redirect
copied = ground arith

all_copied : AllCopied memory bb other_opened.data_queue (record other_opened { data_queue = [] })
all_copied =
    subst (λ q. AllCopied memory bb q (record other_opened { data_queue = [] })) (sym one_queued)
      (copied, tt)

closed-copied_example :
    (copy : Text) × (hit.path_cache_map (text "/d/x") ≡ some copy)
    × (redirect memory (text "/d/x") hit ≡ copy)
    × (enqueue memory (text "/d/x") hit ≡ hit)
closed-copied_example =
    closed-copied memory bulk bb (pos 3) (text "/d/x") (opens (text "/d/y") ∷ [])
      (opens (text "/d/x") ∷ []) entered closed other_opened hit
      (update_self nothing (pos 3) (text "/d/x")) closes refl first_events all_copied last_events
