-- ===== src/Startup/Daemonize.antt =====
-- `daemonize` of src/afdx.c, which `main` does not call: what a process does with the results of its
-- `fork` and its `setsid`. The other results are not used.
use psw_afdx.Base.{
  ℕ, zero, suc, ◌≡◌, refl, ◌↔◌, Bool, true, false, List, [], ◌∷◌, if◌then◌else◌, ℤ, pos, negsuc,
  is_negative, arith, inl, inr, ◌⊎◌,
}

-- The calls, with the arguments that differ. The ignored signals are SIGCHLD and SIGHUP, and the
-- descriptors those of the standard streams.
pub data DaemonCall : Type 0 where
  fork setsid ignore_sigchld ignore_sighup chdir : DaemonCall
  umask : (mask : ℕ) → DaemonCall
  close : (descriptor : ℕ) → DaemonCall
  sleep : (seconds : ℕ) → DaemonCall

-- How the function ends, and the calls that it has made, the first one first.
pub data Ending : Type 0 where
  returns : Ending
  exits : (status : ℕ) → Ending

abbrev pub is_parent : ℤ → Bool
is_parent (pos zero) = false
is_parent (pos (suc n)) = true
is_parent (negsuc n) = false

unfoldable pub daemonize : (pid sid : ℤ) → Ending × List DaemonCall
daemonize pid sid =
    if is_negative pid
    then (exits 1, fork ∷ [])
    else if is_parent pid
    then (exits 0, fork ∷ [])
    else if is_negative sid
    then (exits 1, fork ∷ setsid ∷ [])
    else (
      returns,
      fork
          ∷ setsid
          ∷ ignore_sigchld
          ∷ ignore_sighup
          ∷ umask 0
          ∷ chdir
          ∷ close 0
          ∷ close 1
          ∷ close 2
          ∷ sleep 1
          ∷ [],
    )

-- What `fork` gives to the process that calls it, and to the new one if there is one.
pub data Forked : (parent : ℤ) → List ℤ → Type 0 where
  no_child : (n : ℕ) → Forked (negsuc n) []
  child : (n : ℕ) → Forked (pos (suc n)) (pos 0 ∷ [])

-- Of the process that calls `daemonize` and the new one, only the new one can come back from it, and
-- does so exactly if it becomes the leader of a session. The old one exits, with status 0 exactly if
-- there is a new one.
pub daemonize-child :
    (parent : ℤ) (children : List ℤ) (sid sid' : ℤ)
    → Forked parent children
    → ((daemonize parent sid).0 ≡ (if is_negative parent then exits 1 else exits 0))
      × (((is_negative parent ≡ true) × (children ≡ []))
          ⊎ ((children ≡ pos 0 ∷ [])
              × ((daemonize (pos 0) sid').0 ≡ returns ↔ is_negative sid' ≡ false)))
unfolding daemonize
daemonize-child parent children sid sid' (no_child n) = (refl, inl (refl, refl))
daemonize-child parent children sid sid' (child n) =
    (refl, inr (refl, (λ e. ground arith, λ e. ground arith)))
