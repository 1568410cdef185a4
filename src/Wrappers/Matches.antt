-- ===== src/Wrappers/Matches.antt =====
-- The match between the client libraries and local files is kept: by a call of a process of
-- src/wrappers.c, and by whatever leaves the servers' descriptors alone.
use mt_hvac.Base.{
  pos, ap, ◌⊎◌, none, Option-cases, int_key, ℕ, ◌≡◌, ◌≢◌, refl, sym, subst, ◌∙◌, inl, inr, false,
  Option, some, Text, ℤ,
}
use mt_hvac.Posix.{OpenFile}
use mt_hvac.Platform.{Platform}
use mt_hvac.Rpc.State.{IoStats, Client, Settings, settings}
use mt_hvac.Client.Reads.{IsPlaced}
use mt_hvac.Client.Frames.{IsFramed, IsPlaced-frame, IsPlaced-remote}
use mt_hvac.Wrappers.{map_stats}
use mt_hvac.Wrappers.Turns.{Processes, set_client, world_of}
use mt_hvac.Wrappers.Tables.{put, put_at, put_ne, same_or_apart}
use mt_hvac.Wrappers.Sessions.{Table}
use mt_hvac.Wrappers.Serving.{
  IsCalm, Everywhere, AwayFrom, IsFor, IsMatched, set_client_at, set_client-IsSameFor,
  set_client-IsOwned, set_client-settings, counted-IsSameFor,
}

module _ (P : Platform) (remote : P.Addr → ℤ → P.Sys → Option OpenFile) (Sound : P.Sys → Type 0)
    (σs : ℕ → Settings) (Old : P.Addr → ℤ → Type 0) (same_addr : (a b : P.Addr) → Dec (a ≡ b))
    (fixed : (name : Text) (s s' : P.Sys) → P.resolve name s ≡ P.resolve name s') (t : Table)
    (addrs : ℕ → ℤ → P.Addr) (remote_fds : ℕ → ℤ → ℤ) (s : Processes P.Sys)
    (M : IsMatched P remote Sound σs Old t addrs remote_fds s) where
  -- A change of the rest.
  pub IsMatched-calm :
      (sys : P.Sys)
      → IsCalm P remote Sound (Everywhere P remote Sound) s.sys sys
      → IsMatched P remote Sound σs Old t addrs remote_fds (record s { sys = sys })
  IsMatched-calm sys (stays, keeps) = record {
    same = M.same;
    owned = M.owned;
    sound = stays M.sound;
    placed = λ i fd f h.
        let v = M.placed i fd f h in
        IsPlaced-frame P remote fd f (addrs i fd) (remote_fds i fd) (world_of P s i) _
          (refl, refl, refl) refl (λ name. fixed name sys s.sys)
          (keeps (addrs i fd) (remote_fds i fd) tt
            ∙ (IsPlaced-remote P remote fd f (addrs i fd) (remote_fds i fd) (world_of P s i) v))
          v;
    apart = M.apart;
    on = M.on;
    untracked = M.untracked;
    origin = λ b d g h. M.origin b d g (sym (keeps b d tt) ∙ h);
  }

  -- A call of process `i` that changes nothing at the client but the counters.
  pub IsMatched-counted :
      (i : ℕ) (g : IoStats → IoStats) (sys : P.Sys)
      → IsCalm P remote Sound (Everywhere P remote Sound) s.sys sys
      → IsMatched P remote Sound σs Old t addrs remote_fds
          (record { clients = set_client s.clients i (map_stats g (s.clients i)); sys = sys })
  IsMatched-counted i g sys (stays, keeps) =
      let framed : (fd : ℤ) → IsFramed fd (s.clients i) (map_stats g (s.clients i)) =
        λ fd v. (v, λ other ne. (refl, refl, refl)) in
      record {
        same = λ j.
            set_client-settings s.clients i (pos 0) (map_stats g (s.clients i)) (framed (pos 0))
              M.owned j refl
            ∙ M.same j;
        owned =
            set_client-IsOwned s.clients i (pos 0) (map_stats g (s.clients i)) (framed (pos 0))
              M.owned;
        sound = stays M.sound;
        placed = λ j fd f h.
            let v = M.placed j fd f h in
            IsPlaced-frame P remote fd f (addrs j fd) (remote_fds j fd) (world_of P s j) _
              (counted-IsSameFor s.clients i g j fd)
              (set_client-settings s.clients i (pos 0) (map_stats g (s.clients i)) (framed (pos 0))
                M.owned j refl)
              (λ name. fixed name sys s.sys)
              (keeps (addrs j fd) (remote_fds j fd) tt
                ∙ IsPlaced-remote P remote fd f (addrs j fd) (remote_fds j fd) (world_of P s j) v)
              v;
        apart = M.apart;
        on = M.on;
        untracked = λ j fd h. (counted-IsSameFor s.clients i g j fd).0 ∙ M.untracked j fd h;
        origin = λ b d h' h. M.origin b d h' (sym (keeps b d tt) ∙ h);
      }

  -- A call of process `i`, after which it has `x` at its descriptor `fd`, and that stands for the
  -- descriptor `r` of the server at `a`.
  module _ (i : ℕ) (fd : ℤ) (x : Option OpenFile) (a : P.Addr) (r : ℤ) (c : Client) (sys : P.Sys)
      (on : (f : OpenFile) → x ≡ some f → (σs i).off ≡ false)
      (same' : settings c ≡ settings (s.clients i)) (framed : IsFramed fd (s.clients i) c)
      (calm : IsCalm P remote Sound (AwayFrom P remote Sound a r) s.sys sys)
      (clear : (j : ℕ) (d : ℤ) (g : OpenFile)
        → t j d ≡ some g
        → (i ≡ j → fd ≢ d)
        → a ≡ addrs j d
        → r ≢ remote_fds j d)
      (here : (f : OpenFile)
        → x ≡ some f
        → IsPlaced P remote fd f a r (record { client = c; sys = sys }))
      (gone : x ≡ none → remote a r sys ≡ none) (dropped : x ≡ none → c.fd_map fd ≡ none)
      (was : (f : OpenFile) → t i fd ≡ some f → (addrs i fd ≡ a) × (remote_fds i fd ≡ r)) where
    abbrev t' : Table
    t' = put t i fd x

    abbrev addrs' : ℕ → ℤ → P.Addr
    addrs' = put addrs i fd a

    abbrev remote_fds' : ℕ → ℤ → ℤ
    remote_fds' = put remote_fds i fd r

    abbrev s' : Processes P.Sys
    s' = record { clients = set_client s.clients i c; sys = sys }

    placed_here :
        (j : ℕ) (d : ℤ) (f : OpenFile)
        → i ≡ j
        → fd ≡ d
        → t' j d ≡ some f
        → IsPlaced P remote d f (addrs' j d) (remote_fds' j d) (world_of P s' j)
    placed_here j d f e e' h =
        let (v, at, as_fd) =
          subst (λ k. IsPlaced P remote k f a r (world_of P s' j)) e'
            (subst (λ (u : Client). IsPlaced P remote fd f a r (record { client = u; sys = sys }))
              (sym (set_client_at s.clients i j c e))
              (here f (sym (put_at t i j fd d x e e') ∙ h))) in
        (
          v,
          at ∙ sym (put_at addrs i j fd d a e e'),
          as_fd ∙ sym (put_at remote_fds i j fd d r e e'),
        )

    placed_there :
        (j : ℕ) (d : ℤ) (f : OpenFile)
        → (i ≡ j → fd ≢ d)
        → t' j d ≡ some f
        → IsPlaced P remote d f (addrs' j d) (remote_fds' j d) (world_of P s' j)
    placed_there j d f ne h =
        let there = sym (put_ne t i j fd d x ne) ∙ h in
        let v = M.placed j d f there in
        let (v', at', as_fd') =
          IsPlaced-frame P remote d f (addrs j d) (remote_fds j d) (world_of P s j)
            (world_of P s' j) (set_client-IsSameFor s.clients i fd c framed M.owned j d ne)
            (set_client-settings s.clients i fd c framed M.owned j same')
            (λ name. fixed name sys s.sys)
            (calm.1 (addrs j d) (remote_fds j d) (clear j d f there ne)
              ∙ IsPlaced-remote P remote d f (addrs j d) (remote_fds j d) (world_of P s j) v)
            v in
        (v', at' ∙ sym (put_ne addrs i j fd d a ne), as_fd' ∙ sym (put_ne remote_fds i j fd d r ne))

    apart_new :
        (j₁ j₂ : ℕ) (d₁ d₂ : ℤ) (f g : OpenFile)
        → t' j₁ d₁ ≡ some f
        → t' j₂ d₂ ≡ some g
        → (j₁ ≡ j₂ → d₁ ≢ d₂)
        → addrs' j₁ d₁ ≡ addrs' j₂ d₂
        → remote_fds' j₁ d₁ ≢ remote_fds' j₂ d₂
    apart_new j₁ j₂ d₁ d₂ f g h₁ h₂ ne q q' = elim (same_or_apart i j₁ fd d₁) [
      | inl (e₁, e₁') ↦ elim (same_or_apart i j₂ fd d₂) [
        | inl (e₂, e₂') ↦ ne (sym e₁ ∙ e₂) (sym e₁' ∙ e₂')
        | inr ne₂ ↦
            clear j₂ d₂ g (sym (put_ne t i j₂ fd d₂ x ne₂) ∙ h₂) ne₂
              (sym (put_at addrs i j₁ fd d₁ a e₁ e₁') ∙ q ∙ put_ne addrs i j₂ fd d₂ a ne₂)
              (sym (put_at remote_fds i j₁ fd d₁ r e₁ e₁')
                ∙ q'
                ∙ put_ne remote_fds i j₂ fd d₂ r ne₂)
      ]
      | inr ne₁ ↦ elim (same_or_apart i j₂ fd d₂) [
        | inl (e₂, e₂') ↦
            clear j₁ d₁ f (sym (put_ne t i j₁ fd d₁ x ne₁) ∙ h₁) ne₁
              (sym (put_at addrs i j₂ fd d₂ a e₂ e₂') ∙ sym q ∙ put_ne addrs i j₁ fd d₁ a ne₁)
              (sym (put_at remote_fds i j₂ fd d₂ r e₂ e₂')
                ∙ sym q'
                ∙ put_ne remote_fds i j₁ fd d₁ r ne₁)
        | inr ne₂ ↦
            M.apart j₁ j₂ d₁ d₂ f g (sym (put_ne t i j₁ fd d₁ x ne₁) ∙ h₁)
              (sym (put_ne t i j₂ fd d₂ x ne₂) ∙ h₂) ne
              (sym (put_ne addrs i j₁ fd d₁ a ne₁) ∙ q ∙ put_ne addrs i j₂ fd d₂ a ne₂)
              (sym (put_ne remote_fds i j₁ fd d₁ r ne₁) ∙ q' ∙ put_ne remote_fds i j₂ fd d₂ r ne₂)
      ]
    ]

    abbrev IsAccounted : P.Addr → ℤ → Type 0
    IsAccounted b d = IsFor P remote Sound t' addrs' remote_fds' b d ⊎ Old b d

    origin_far :
        (b : P.Addr) (d : ℤ) (g : OpenFile)
        → AwayFrom P remote Sound a r b d
        → remote b d sys ≡ some g
        → IsAccounted b d
    origin_far b d g away h = elim (M.origin b d g (sym (calm.1 b d away) ∙ h)) [
      | inl (j, d', f, e, at, as_fd) ↦ elim (same_or_apart i j fd d') [
        | inl (e₁, e₂) ↦
            let (q, q') = was f (ap (λ k. t k fd) e₁ ∙ ap (t j) e₂ ∙ e) in
            absurd (
              away (sym q ∙ ap (λ k. addrs k fd) e₁ ∙ ap (addrs j) e₂ ∙ at)
                (sym q' ∙ ap (λ k. remote_fds k fd) e₁ ∙ ap (remote_fds j) e₂ ∙ as_fd))
        | inr ne ↦ inl (
          j,
          d',
          f,
          put_ne t i j fd d' x ne ∙ e,
          put_ne addrs i j fd d' a ne ∙ at,
          put_ne remote_fds i j fd d' r ne ∙ as_fd,
        )
      ]
      | inr old ↦ inr old
    ]

    origin_near : (g : OpenFile) → remote a r sys ≡ some g → IsAccounted a r
    origin_near g h = elim (Option-cases x) [
      | inl e ↦ let e' = gone e in absurd (cc)
      | inr (f, e) ↦ inl (
        i,
        fd,
        f,
        put_at t i i fd fd x refl refl ∙ e,
        put_at addrs i i fd fd a refl refl,
        put_at remote_fds i i fd fd r refl refl,
      )
    ]

    origin_new : (b : P.Addr) (d : ℤ) (g : OpenFile) → remote b d sys ≡ some g → IsAccounted b d
    origin_new b d g h = elim (same_addr a b) [
      | yes e ↦ elim (int_key.dec r d) [
        | yes e' ↦
            let near =
              origin_near g (ap (λ k. remote k r sys) e ∙ ap (λ k. remote b k sys) e' ∙ h) in
            subst (λ k. IsAccounted k d) e (subst (IsAccounted a) e' near)
        | no ne ↦ origin_far b d g (λ q. ne) h
      ]
      | no ne ↦ origin_far b d g (λ q. absurd (ne q)) h
    ]

    untracked_new : (j : ℕ) (d : ℤ) → t' j d ≡ none → (s'.clients j).fd_map d ≡ none
    untracked_new j d h = elim (same_or_apart i j fd d) [
      | inl (e, e') ↦
          ap (λ (u : Client). u.fd_map d) (set_client_at s.clients i j c e)
          ∙ subst (λ k. c.fd_map k ≡ none) e' (dropped (sym (put_at t i j fd d x e e') ∙ h))
      | inr ne ↦
          (set_client-IsSameFor s.clients i fd c framed M.owned j d ne).0
          ∙ M.untracked j d (sym (put_ne t i j fd d x ne) ∙ h)
    ]

    pub IsMatched-put : IsMatched P remote Sound σs Old t' addrs' remote_fds' s'
    IsMatched-put = record {
      same = λ j. set_client-settings s.clients i fd c framed M.owned j same' ∙ M.same j;
      owned = set_client-IsOwned s.clients i fd c framed M.owned;
      sound = calm.0 M.sound;
      placed = λ j d f h. elim (same_or_apart i j fd d) [
        | inl (e, e') ↦ placed_here j d f e e' h
        | inr ne ↦ placed_there j d f ne h
      ];
      apart = apart_new;
      untracked = untracked_new;
      origin = origin_new;
      on = λ j d f h. elim (same_or_apart i j fd d) [
        | inl (e, e') ↦
            subst (λ k. (σs k).off ≡ false) e (on f (sym (put_at t i j fd d x e e') ∙ h))
        | inr ne ↦ M.on j d f (sym (put_ne t i j fd d x ne) ∙ h)
      ];
    }
