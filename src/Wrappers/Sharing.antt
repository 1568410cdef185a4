-- ===== src/Wrappers/Sharing.antt =====
-- Processes that read in turns through the wrappers of src/wrappers.c, each from its own file.
use mt_hvac.Base.{
  ℕ, ◌<◌, ◌^◌, ◌==◌, ◌≡◌, ◌≢◌, refl, sym, ap, subst, ◌∙◌, inl, inr, Bool-cases, Option, some, List,
  [], ◌∷◌, ◌++◌, arith, ℤ, minus_one, nat_key, >>=-returns, returns, if◌then◌else◌,
}
use mt_hvac.Posix.{OpenFile, slice}
use mt_hvac.Platform.{Platform}
use mt_hvac.Client.Reads.{IsHonest, IsServed, IsPlaced, IsPlaced-move, advance, request}
use mt_hvac.Wrappers.{map_stats}
use mt_hvac.Wrappers.Reads.{wrap_read-sent, count_read}
use mt_hvac.Wrappers.Turns.{
  Processes, Turn, total_of, AreTurns, set_client, world_of, put_back, take_turn, take_turns,
  files_after, first-rest,
}

-- A read of one descriptor of the servers leaves every other as it was.
pub record IsIsolated (P : Platform) (remote : P.Addr → ℤ → P.Sys → Option OpenFile) : Type 0 where
  pub remote-send_read :
      (a b : P.Addr) (fd other : ℤ) (n : ℕ) (s : P.Sys) (f : OpenFile)
      → n < 2 ^ 31
      → remote a fd s ≡ some f
      → (a ≡ b → fd ≢ other)
      → remote b other (P.send_read (some a) (request n fd minus_one) s).1 ≡ remote b other s

module _ (P : Platform) (remote : P.Addr → ℤ → P.Sys → Option OpenFile) (n : ℕ) (fds : ℕ → ℤ)
    (addrs : ℕ → P.Addr) (remote_fds : ℕ → ℤ) where
  -- The first `n` processes have served descriptors, at these places.
  abbrev pub ArePlaced : (ℕ → OpenFile) → Processes P.Sys → Type 0
  ArePlaced files s =
      (i : ℕ)
      → i < n
      → IsPlaced P remote (fds i) (files i) (addrs i) (remote_fds i) (world_of P s i)

  -- No two of them at one place.
  abbrev pub AreApart : Type 0
  AreApart = (i j : ℕ) → i < n → j < n → i ≢ j → addrs i ≡ addrs j → remote_fds i ≢ remote_fds j

  module _ (H : IsHonest P remote) (I : IsIsolated P remote) (apart : AreApart) where
    module _ (t : Turn) (files : ℕ → OpenFile) (s : Processes P.Sys) (runs : t.who < n)
        (small : t.call.count < 2 ^ 31) (placed : ArePlaced files s) where
      abbrev mine : IsServed P remote (fds t.who) (files t.who) (world_of P s t.who)
      mine = (placed t.who runs).0

      abbrev sys_after : P.Sys
      sys_after =
          (P.send_read (some mine.addr) (request t.call.count mine.remote_fd minus_one) s.sys).1

      abbrev after : Processes P.Sys
      after = record {
        clients =
            set_client s.clients t.who
              (map_stats (count_read P remote H t.call.start t.call.end) (s.clients t.who));
        sys = sys_after;
      }

      sent :
          (take_turn P fds t s
            ≡ returns (slice (files t.who).offset t.call.count (files t.who).content, after))
          × (remote mine.addr mine.remote_fd sys_after ≡ some (advance (files t.who) t.call.count))
      unfolding take_turn
      sent =
          let (e, served) =
            wrap_read-sent P remote H t.call.start t.call.end (fds t.who) t.call.count (files t.who)
              (world_of P s t.who) mine small in
          (ap (put_back P t.who s) e, served)

      take_turn_self :
          IsPlaced P remote
            (fds t.who)
            (advance (files t.who) t.call.count)
            (addrs t.who)
            (remote_fds t.who)
            (record {
              client = map_stats (count_read P remote H t.call.start t.call.end) (s.clients t.who);
              sys = sys_after;
            })
      take_turn_self =
          let (v, a, r) =
            IsPlaced-move P remote (fds t.who) (files t.who) (advance (files t.who) t.call.count)
              (world_of P s t.who) (count_read P remote H t.call.start t.call.end) sys_after mine
              (H.resolve-send_read mine.name mine.addr
                (request t.call.count mine.remote_fd minus_one) s.sys)
              sent.1 in
          (v, a ∙ (placed t.who runs).1, r ∙ (placed t.who runs).2)

      take_turn_other :
          (i : ℕ)
          → i < n
          → t.who ≢ i
          → IsPlaced P remote
              (fds i)
              (files i)
              (addrs i)
              (remote_fds i)
              (record { client = s.clients i; sys = sys_after })
      take_turn_other i below other =
          let (u, a, r) = placed i below in
          let (v, b, q) =
            IsPlaced-move P remote (fds i) (files i) (files i) (world_of P s i) (λ c. c) sys_after u
              (H.resolve-send_read u.name mine.addr (request t.call.count mine.remote_fd minus_one)
                s.sys)
              (I.remote-send_read mine.addr u.addr mine.remote_fd u.remote_fd t.call.count s.sys
                  (files t.who) small mine.served
                  (λ same h.
                    apart t.who i runs below other (sym (placed t.who runs).1 ∙ same ∙ a)
                      (sym (placed t.who runs).2 ∙ h ∙ r))
                ∙ u.served) in
          (v, b ∙ a, q ∙ r)

      -- A turn reads what its process's file has next, and leaves every process placed.
      take_turn-ArePlaced : ArePlaced (files_after t files) after
      take_turn-ArePlaced i below = elim (Bool-cases (t.who == i)) [
        | inl same ↦
            let e : t.who ≡ i = ground arith in
            rw same (
              subst
                (λ j.
                  IsPlaced P remote (fds j) (advance (files j) t.call.count) (addrs j)
                    (remote_fds j)
                    (record {
                      client =
                          map_stats (count_read P remote H t.call.start t.call.end)
                            (s.clients t.who);
                      sys = sys_after;
                    }))
                e take_turn_self)
        | inr other ↦ rw other (take_turn_other i below (λ e. ground arith))
      ]

    pub take_turns-content :
        (ts : List Turn) (files : ℕ → OpenFile) (s : Processes P.Sys)
        → AreTurns n ts
        → ArePlaced files s
        → (bytes : ℕ → List ℕ) × (s' : Processes P.Sys) × (take_turns P fds ts s
            ≡ returns (bytes, s'))
          × ((i : ℕ) → bytes i ≡ slice (files i).offset (total_of i ts) (files i).content)
    unfolding take_turns
    take_turns-content [] files s are placed = (λ i. [], s, refl, λ i. refl)
    take_turns-content (t ∷ ts) files s (runs, small, more) placed =
        let (first, served) = sent t files s runs small placed in
        let (bytes, s', rest, all) =
          take_turns-content ts (files_after t files) (after t files s runs small placed) more
            (take_turn-ArePlaced t files s runs small placed) in
        (
          λ i.
              (if t.who == i
                then slice (files t.who).offset t.call.count (files t.who).content
                else [])
              ++ bytes i,
          s',
          >>=-returns (take_turn P fds t) _ s first ∙ >>=-returns (take_turns P fds ts) _ _ rest,
          λ i. first-rest t ts files i (bytes i) (all i),
        )
