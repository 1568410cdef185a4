-- ===== src/Client/Tracking.antt =====
-- Which files are tracked: the guards of `hvac_track_file` in src/mthvac_client.cpp.
use mt_hvac.Base.{
  ℕ, ◌≡◌, ◌↔◌, refl, sym, ap, ◌∙◌, ◌⊎◌, inl, inr, Bool-cases, Option-cases, Bool, true, false, ◌||◌,
  Option, none, some, [], ◌∷◌, ◌++◌, arith, Text, text, ℤ, text_key, returns,
}
use mt_hvac.Platform.{Platform}
use mt_hvac.Rpc.State.{World}
use mt_hvac.Client.{
  starts_with, contains, parent_path, is_write_only, is_append, in_dir, to_track, track, track_file,
}
use mt_hvac.Client.Opens.{IsTracked, track-effect}

starts_with-eq-true : (s p : Text) → starts_with s p ≡ true → (rest : Text) × (s ≡ p ++ rest)
unfolding starts_with
starts_with-eq-true s [] h = (s, refl)
starts_with-eq-true [] (d ∷ p) h = cc
starts_with-eq-true (c ∷ s) (d ∷ p) h =
    let (rest, e) = starts_with-eq-true s p (ground arith) in (rest, ground arith)

starts_with-append : (p rest : Text) → starts_with (p ++ rest) p ≡ true
unfolding starts_with
starts_with-append [] rest = refl
starts_with-append (d ∷ p) rest = ground (arith, starts_with-append p rest)

contains-starts_with : (s p : Text) → starts_with s p ≡ true → contains s p ≡ true
unfolding contains
contains-starts_with [] p h = h
contains-starts_with (c ∷ s) p h = rw h

contains-eq-true : (s p : Text) → contains s p ≡ true → (a b : Text) × (s ≡ a ++ (p ++ b))
unfolding contains
contains-eq-true [] p h = let (rest, e) = starts_with-eq-true [] p h in ([], rest, e)
contains-eq-true (c ∷ s) p h = elim (Bool-cases (starts_with (c ∷ s) p)) [
  | inl here ↦ let (rest, e) = starts_with-eq-true (c ∷ s) p here in ([], rest, e)
  | inr later ↦ let (a, b, e) = contains-eq-true s p (ground arith) in (c ∷ a, b, ap (◌∷◌ c) e)
]

contains-append : (a p b : Text) → contains (a ++ (p ++ b)) p ≡ true
unfolding contains
contains-append [] p b = contains-starts_with (p ++ b) p (starts_with-append p b)
contains-append (c ∷ a) p b = ground (arith, contains-append a p b)

-- The search finds a text exactly where it stands in the other, wherever that is.
contains_iff :
    (s p : Text) → (contains s p ≡ true) ↔ ((a : Text) × (b : Text) × (s ≡ a ++ (p ++ b)))
contains_iff s p =
    (contains-eq-true s p, λ (a, b, e). ap (λ t. contains t p) e ∙ contains-append a p b)

module _ (P : Platform) where
  -- The file lies where files are tracked: somewhere in its directory's path stands the canonical
  -- data directory; without a data directory, its directory is the current one.
  abbrev pub IsLocated : Option Text → Text → P.Sys → Type 0
  IsLocated none full s = P.current_path s ≡ some (parent_path full)
  IsLocated (some dir) full s =
      (d : Text) × (P.canonical dir s ≡ some d)
      × (a : Text) × (b : Text) × (parent_path full ≡ a ++ (d ++ b))

  to_track-IsLocated :
      (path full : Text) (dir : Option Text) (s : P.Sys)
      → to_track P path dir s ≡ some full
      → (P.canonical path s ≡ some full) × IsLocated dir full s
  unfolding to_track
  to_track-IsLocated path full none s h = ground arith
  to_track-IsLocated path full (some dir) s h = elim (Option-cases (P.canonical path s)) [
    | inl e ↦ ground arith
    | inr (f, e) ↦ elim (Option-cases (P.canonical dir s)) [
      | inl e' ↦ ground arith
      | inr (d, e') ↦
          let here : contains (parent_path f) d ≡ true = ground arith in
          let (a, b, at) = contains-eq-true (parent_path f) d here in
          let same : f ≡ full = ground arith in
          (ground arith, (d, e', a, b, ap parent_path (sym same) ∙ at))
    ]
  ]

  IsLocated-to_track :
      (path full : Text) (dir : Option Text) (s : P.Sys)
      → P.canonical path s ≡ some full
      → IsLocated dir full s
      → to_track P path dir s ≡ some full
  unfolding to_track
  IsLocated-to_track path full none s e h = rw (e, to_track) (ground arith)
  IsLocated-to_track path full (some dir) s e (d, e', a, b, at) =
      let here : contains (parent_path full) d ≡ true =
        ap (λ t. contains t d) at ∙ contains-append a d b in
      rw (e, to_track) (rw (e', in_dir) (rw here))

  -- A path leads to a file that is to be tracked exactly if it has a canonical path and the file
  -- lies where files are tracked. The canonical data directory may stand anywhere in the path of the
  -- file's directory, also with other characters around it.
  pub to_track_iff :
      (path full : Text) (dir : Option Text) (s : P.Sys)
      → (to_track P path dir s ≡ some full)
        ↔ ((P.canonical path s ≡ some full) × IsLocated dir full s)
  to_track_iff path full dir s = (
    to_track-IsLocated path full dir s,
    λ (e, located). IsLocated-to_track path full dir s e located,
  )

  -- The file may be tracked: it is not the ports file, is not opened for writing only or for
  -- appending, has a canonical path, and lies where files are tracked.
  pub record IsTrackable (path : Text) (flags : ℕ) (full : Text) (w : World P.Sys) : Type 0 where
    pub not_ports : contains path (text ".ports.cfg.") ≡ false
    pub not_write_only : is_write_only flags ≡ false
    pub not_append : is_append flags ≡ false
    pub is_canonical : P.canonical path w.sys ≡ some full
    pub located : IsLocated w.client.data_dir full w.sys

  abbrev pub is_excluded : Text → ℕ → Bool
  is_excluded path flags =
      contains path (text ".ports.cfg.") || (is_write_only flags || is_append flags)

  pub track_file-included :
      (path : Text) (flags : ℕ) (fd : ℤ) (w : World P.Sys)
      → is_excluded path flags ≡ false
      → track_file P path flags fd w ≡ track P fd (to_track P path w.client.data_dir w.sys) w
  unfolding track_file
  track_file-included path flags fd w e = rw e

  pub track_file-excluded :
      (path : Text) (flags : ℕ) (fd : ℤ) (w : World P.Sys)
      → is_excluded path flags ≡ true
      → track_file P path flags fd w ≡ returns (false, w)
  unfolding track_file
  track_file-excluded path flags fd w e = rw e

  -- For such a file, all that follows is the tracking of its canonical path.
  pub track_file-track :
      (path full : Text) (flags : ℕ) (fd : ℤ) (w : World P.Sys)
      → IsTrackable path flags full w
      → track_file P path flags fd w ≡ track P fd (some full) w
  track_file-track path full flags fd w v =
      track_file-included path flags fd w
        (ground (arith, v.not_ports, v.not_write_only, v.not_append))
      ∙ ap (λ o. track P fd o w)
          (IsLocated-to_track path full w.client.data_dir w.sys v.is_canonical v.located)

  pub track-none : (fd : ℤ) (w : World P.Sys) → track P fd none w ≡ returns (false, w)
  unfolding track
  track-none fd w = refl

  -- When `hvac_track_file` returns, either it has said no and left everything as it was, or the file
  -- may be tracked and its open has left what such an open leaves.
  pub track_file-IsTrackable :
      (path : Text) (flags : ℕ) (fd : ℤ) (w w' : World P.Sys) (tracked : Bool)
      → track_file P path flags fd w ≡ returns (tracked, w')
      → ((tracked ≡ false) × (w' ≡ w))
        ⊎ ((full : Text) × IsTrackable path flags full w
            × (status : ℤ) × IsTracked P fd full status tracked w w')
  track_file-IsTrackable path flags fd w w' tracked h = elim (Bool-cases (is_excluded path flags)) [
    | inl out ↦ let e = sym (track_file-excluded path flags fd w out) ∙ h in inl (cc, cc)
    | inr within ↦
        let e = sym (track_file-included path flags fd w within) ∙ h in
        elim (Option-cases (to_track P path w.client.data_dir w.sys)) [
          | inl none_found ↦
              let k = sym (track-none fd w) ∙ ap (λ o. track P fd o w) (sym none_found) ∙ e in
              inl (cc, cc)
          | inr (full, found) ↦
              let (canon, located) = to_track-IsLocated path full w.client.data_dir w.sys found in
              let (status, v) =
                track-effect P fd full w w' tracked (ap (λ o. track P fd o w) (sym found) ∙ e) in
              inr (
                full,
                record {
                  not_ports = ground arith;
                  not_write_only = ground arith;
                  not_append = ground arith;
                  is_canonical = canon;
                  located = located;
                },
                status,
                v,
              )
        ]
  ]
