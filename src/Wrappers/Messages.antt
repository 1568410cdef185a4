-- ===== src/Wrappers/Messages.antt =====
-- The I/O of log4c while a message is logged: the thread-local flag that log_preformatter_internal of
-- src/hvac_logging.c sets, and the wrappers of src/wrappers.c that test it.
use mt_hvac.Base.{
  ℕ, ◌≡◌, refl, ◌∙◌, true, false, Text, ℤ, arith, int_key, ◌>>=◌, ◌>>◌, >>=-returns, pure, returns,
}
use mt_hvac.Platform.{Platform}
use mt_hvac.Fd.Deadline.{Timespec}
use mt_hvac.Rpc.State.{World, redirect_off, modify, outside}
use mt_hvac.Rpc.{Action}
use mt_hvac.Wrappers.{wrap_open, wrap_close}

-- What log4c does to write a message: it may open and close files, which is intercepted, and go on by
-- what that gives; what else it does is not intercepted.
pub data Emission (Sys : Type 0) : Type 0 where
  finished : Emission Sys
  opens : (start end : Timespec) → Text → (flags mode : ℕ) → (ℤ → Emission Sys) → Emission Sys
  closes : (start end : Timespec) → ℤ → (ℤ → Emission Sys) → Emission Sys
  writes : (Sys → Sys) → Emission Sys → Emission Sys

module _ (P : Platform) where
  -- Through the wrappers.
  unfoldable pub emit : Emission P.Sys → Action P (Unit {0})
  emit finished = pure tt
  emit (opens start end path flags mode rest) = do
    fd ← wrap_open P start end path flags mode
    emit (rest fd)
  emit (closes start end fd rest) = do ret ← wrap_close P start end fd; emit (rest ret)
  emit (writes f rest) = do outside (λ s. (tt {0}, f s)); emit rest

  -- With the C library's own functions.
  unfoldable pub direct : Emission P.Sys → P.Sys → P.Sys
  direct finished s = s
  direct (opens start end path flags mode rest) s =
      let (fd, s') = P.real_open path flags mode s in direct (rest fd) s'
  direct (closes start end fd rest) s = let (ret, s') = P.real_close fd s in direct (rest ret) s'
  direct (writes f rest) s = direct rest (f s)

  -- log_preformatter_internal
  unfoldable pub log_message : Emission P.Sys → Action P (Unit {0})
  log_message e = do
    modify (λ c. record c { tl_disable_redirect = true })
    emit e
    modify (λ c. record c { tl_disable_redirect = false })

  wrap_open-off :
      (start end : Timespec) (path : Text) (flags mode : ℕ) (w : World P.Sys)
      → redirect_off w.client ≡ true
      → wrap_open P start end path flags mode w
        ≡ returns (
          (P.real_open path flags mode w.sys).0,
          record w { sys = (P.real_open path flags mode w.sys).1 },
        )
  unfolding wrap_open
  wrap_open-off start end path flags mode w off = ground arith

  wrap_close-off :
      (start end : Timespec) (fd : ℤ) (w : World P.Sys)
      → redirect_off w.client ≡ true
      → wrap_close P start end fd w
        ≡ returns ((P.real_close fd w.sys).0, record w { sys = (P.real_close fd w.sys).1 })
  unfolding wrap_close
  wrap_close-off start end fd w off = ground arith

  emit-direct :
      (e : Emission P.Sys) (w : World P.Sys)
      → redirect_off w.client ≡ true
      → emit e w ≡ returns (tt, record w { sys = direct e w.sys })
  unfolding emit direct
  emit-direct finished w off = refl
  emit-direct (opens start end path flags mode rest) w off =
      >>=-returns (wrap_open P start end path flags mode) _ w
        (wrap_open-off start end path flags mode w off)
      ∙ emit-direct (rest _) _ off
  emit-direct (closes start end fd rest) w off =
      >>=-returns (wrap_close P start end fd) _ w (wrap_close-off start end fd w off)
      ∙ emit-direct (rest _) _ off
  emit-direct (writes f rest) w off = emit-direct rest _ off

  -- Whatever log4c opens and closes to write a message, the logging returns, its calls go to the C
  -- library as they are, without a request to a server, and the client stays as it was but for the
  -- thread's flag, which is off in the end.
  pub log_message-direct :
      (e : Emission P.Sys) (w : World P.Sys)
      → log_message e w
        ≡ returns (
          tt,
          record { client = record w.client { tl_disable_redirect = false }; sys = direct e w.sys },
        )
  unfolding log_message
  log_message-direct e w =
      >>=-returns (emit e) _ (record w { client = record w.client { tl_disable_redirect = true } })
        (emit-direct e _ (ground arith))
