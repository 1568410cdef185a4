-- ===== src/Ports/Posted.antt =====
-- A file that servers have posted their addresses to, and what the scan finds in it.
use mathlib.Core.List.{append_assoc}
use mt_hvac.Base.{
  ℕ, zero, suc, ◌≤◌, ◌<◌, ◌^◌, ◌≡◌, refl, sym, ap, ◌∙◌, List, [], ◌∷◌, ◌++◌, arith, Text, length,
  length-append, ℤ, pos, int_key, ◌==◌, if◌then◌else◌,
}
use mt_hvac.Ports.{print_entry, Scan, found, missing, scan_loop, scan_ports, path_max}
use mt_hvac.Decimal.{skip_space}
use mt_hvac.Ports.RoundTrip.{
  IsWord, scan_entry-print_entry, scan_entry-nil, skip_space-print_entry, length-print_entry,
}

-- What a server posts: its rank and its address.
pub record Post : Type 0 where
  pub rank : ℕ
  pub address : Text

-- The appends of `hvac_comm_list_addr`, in the order in which the servers make them.
abbrev pub posted : List Post → Text
posted [] = []
posted (p ∷ ps) = print_entry (pos p.rank) p.address ++ posted ps

-- The address is not empty, has no white space, and fits into `svr_str`.
abbrev pub IsAddress : Text → Type 0
IsAddress [] = ⊥
IsAddress (c ∷ w) = IsWord (c ∷ w) × (length (c ∷ w) < path_max)

abbrev pub ArePosts : List Post → Type 0
ArePosts [] = Unit {0}
ArePosts (p ∷ ps) = (p.rank < 2 ^ 31) × IsAddress p.address × ArePosts ps

-- The first post of a rank.
abbrev pub first_post : ℕ → List Post → Scan
first_post rank [] = missing
first_post rank (p ∷ ps) = if p.rank == rank then found p.address else first_post rank ps

skip_space-posted : (ps : List Post) → ArePosts ps → skip_space (posted ps) ≡ posted ps
unfolding skip_space
skip_space-posted [] v = refl
skip_space-posted (p ∷ ps) v = skip_space-print_entry p.rank p.address (posted ps) v.0

scan_loop-post :
    (f rank r : ℕ) (address rest : Text)
    → r < 2 ^ 31
    → IsAddress address
    → scan_loop (suc f) (pos rank) (print_entry (pos r) address ++ rest)
      ≡ (if r == rank then found address else scan_loop f (pos rank) (skip_space rest))
unfolding scan_loop
scan_loop-post f rank r [] rest h v = absurd v
scan_loop-post f rank r (c ∷ w) rest h (word, fits) =
    rw (scan_entry-print_entry r c w rest h word, scan_loop) (ground arith)

scan_loop-nil : (f : ℕ) (rank : ℤ) → scan_loop (suc f) rank [] ≡ missing
unfolding scan_loop
scan_loop-nil f rank = rw (scan_entry-nil, scan_loop)

scan_loop-posted :
    (f rank : ℕ) (ps : List Post)
    → length ps < f
    → ArePosts ps
    → scan_loop f (pos rank) (posted ps) ≡ first_post rank ps
scan_loop-posted zero rank ps h v = elim h [ ]
scan_loop-posted (suc f) rank [] h v = scan_loop-nil f (pos rank)
scan_loop-posted (suc f) rank (p ∷ ps) h v =
    scan_loop-post f rank p.rank p.address (posted ps) v.0 v.1
    ∙ ap (λ q. if p.rank == rank then found p.address else q)
        (ap (scan_loop f (pos rank)) (skip_space-posted ps v.2)
          ∙ scan_loop-posted f rank ps (omega arith) v.2)

length-posted : (ps : List Post) → length ps ≤ length (posted ps)
length-posted [] = omega arith
length-posted (p ∷ ps) = omega (
  arith,
  length-append (print_entry (pos p.rank) p.address) (posted ps),
  length-print_entry p.rank p.address,
  length-posted ps,
)

-- In a file that servers have posted to, the scan finds the address that a server of the rank has
-- posted first, and none if no server of the rank has posted.
pub scan_ports-posted :
    (rank : ℕ) (ps : List Post)
    → ArePosts ps
    → scan_ports (pos rank) (posted ps) ≡ first_post rank ps
unfolding scan_ports
scan_ports-posted rank ps v =
    scan_loop-posted (suc (length (posted ps))) rank ps (omega (arith, length-posted ps)) v

first_post-append :
    (rank : ℕ) (ps more : List Post) (address : Text)
    → first_post rank ps ≡ found address
    → first_post rank (ps ++ more) ≡ found address
first_post-append rank [] more address h = cc
first_post-append rank (p ∷ ps) more address h =
    ground (arith, first_post-append rank ps more address)

pub posted-append : (ps more : List Post) → posted (ps ++ more) ≡ posted ps ++ posted more
posted-append [] more = refl
posted-append (p ∷ ps) more =
    ap (◌++◌ (print_entry (pos p.rank) p.address)) (posted-append ps more)
    ∙ sym (append_assoc (print_entry (pos p.rank) p.address) (posted ps) (posted more))

-- An address once found is found again after any further posts, so that the cached address stays
-- the one that the file gives.
scan_ports-append :
    (rank : ℕ) (ps more : List Post) (address : Text)
    → ArePosts ps
    → ArePosts (ps ++ more)
    → scan_ports (pos rank) (posted ps) ≡ found address
    → scan_ports (pos rank) (posted ps ++ posted more) ≡ found address
scan_ports-append rank ps more address v w h =
    ap (scan_ports (pos rank)) (sym (posted-append ps more))
    ∙ scan_ports-posted rank (ps ++ more) w
    ∙ first_post-append rank ps more address (sym (scan_ports-posted rank ps v) ∙ h)
