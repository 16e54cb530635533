-- ===== src/Notification/Latch.antt =====
-- Removal is terminal: runs of a watcher as steps.
use sakai.Base.{
  if◌then◌else◌, Bool-cases, All, Result, ok, err, ℕ, ◌+◌, ◌≡◌, refl, sym, ap, ◌∙◌, inl, inr, Bool,
  true, false, Option, none, some, List, [], ◌∷◌, arith,
}
use sakai.Os.{Errno, epipe, os, io}
use sakai.Notification.{
  ChangeNotification, no_change, Outcome, Reader, read_batch, ConfigurationWatcher, of_batch,
  of_ready, watch,
}
use mathlib.Core.Option

-- One call of `wait`, with whatever the system answers.
pub data Waits
    : ConfigurationWatcher
      → Outcome (Option ChangeNotification)
      → ConfigurationWatcher
      → Type 1 where
  waits :
      {w w' : ConfigurationWatcher} {out : Outcome (Option ChangeNotification)} (r : Reader)
      (fuel : ℕ) (s : r.State) (ready : Outcome Bool)
      → watch r fuel s ready w ≡ some (out, w')
      → Waits w out w'

-- Any number of calls, with what they returned.
pub data Run
    : ConfigurationWatcher
      → List (Outcome (Option ChangeNotification))
      → ConfigurationWatcher
      → Type 1 where
  idle : {w : ConfigurationWatcher} → Run w [] w
  call :
      {w w' w'' : ConfigurationWatcher} {out : Outcome (Option ChangeNotification)}
      {outs : List (Outcome (Option ChangeNotification))}
      → Waits w out w'
      → Run w' outs w''
      → Run w (out ∷ outs) w''

abbrev pub tells_removal : Outcome (Option ChangeNotification) → Bool
tells_removal (ok (some n)) = n.removed
tells_removal (ok none) = false
tells_removal (err e) = false

terminal_step :
    (w w' : ConfigurationWatcher) (out : Outcome (Option ChangeNotification))
    → w.removed ≡ true
    → Waits w out w'
    → (out ≡ err (io (os epipe))) × (w' ≡ w)
unfolding watch
terminal_step w w' out dead (waits r fuel s ready e) = (cc (rw dead at e), cc (rw dead at e))

-- After a removal every further call is the error of a broken pipe, and the watcher stays as it is.
pub Run-terminal :
    (w w' : ConfigurationWatcher) (outs : List (Outcome (Option ChangeNotification)))
    → w.removed ≡ true
    → Run w outs w'
    → All (λ out. out ≡ err (io (os epipe))) outs × (w' ≡ w)
Run-terminal w w' _ dead idle = (tt, refl)
Run-terminal w w'' _ dead (call {w' = w'} {out = out} {outs = outs} step run) =
    let (e, same) = terminal_step w w' out dead step in
    let (es, same') = Run-terminal w' w'' outs (rw same dead) run in ((e, es), same' ∙ same)

live_batch :
    (w : ConfigurationWatcher) (batch : Result Errno ChangeNotification)
    → w.removed ≡ false
    → tells_removal (of_batch w batch).0 ≡ (of_batch w batch).1.removed
live_batch w (err e) live = sym live
live_batch w (ok n) live = ground arith

live_read :
    (w w' : ConfigurationWatcher) (out : Outcome (Option ChangeNotification))
    (batch : Option (Result Errno ChangeNotification))
    → w.removed ≡ false
    → Option.map (of_batch w) batch ≡ some (out, w')
    → tells_removal out ≡ w'.removed
live_read w w' out none live h = cc
live_read w w' out (some batch) live h = ground (arith, live_batch w batch live)

watch-of_ready :
    (w : ConfigurationWatcher) (r : Reader) (fuel : ℕ) (s : r.State) (ready : Outcome Bool)
    → w.removed ≡ false
    → watch r fuel s ready w ≡ of_ready r fuel s w ready
unfolding watch
watch-of_ready w r fuel s ready live =
    ap (λ b. if b then some (err (io (os epipe)), w) else of_ready r fuel s w ready) live

live_ready :
    (w w' : ConfigurationWatcher) (out : Outcome (Option ChangeNotification)) (r : Reader)
    (fuel : ℕ) (s : r.State) (ready : Outcome Bool)
    → w.removed ≡ false
    → of_ready r fuel s w ready ≡ some (out, w')
    → tells_removal out ≡ w'.removed
live_ready w w' out r fuel s (ok true) live e =
    live_read w w' out (read_batch r fuel s no_change) live e
live_ready w w' out r fuel s (ok false) live e = ground arith
live_ready w w' out r fuel s (err x) live e = ground arith

live_step :
    (w w' : ConfigurationWatcher) (out : Outcome (Option ChangeNotification))
    → w.removed ≡ false
    → Waits w out w'
    → tells_removal out ≡ w'.removed
live_step w w' out live (waits r fuel s ready e) =
    live_ready w w' out r fuel s ready live (sym (watch-of_ready w r fuel s ready live) ∙ e)

-- How many of the results tell of a removal.
abbrev pub removals : List (Outcome (Option ChangeNotification)) → ℕ
removals [] = 0
removals (out ∷ outs) = let rest = removals outs in if tells_removal out then 1 + rest else rest

removals-All :
    (outs : List (Outcome (Option ChangeNotification)))
    → All (λ out. out ≡ err (io (os epipe))) outs
    → removals outs ≡ 0
removals-All [] h = refl
removals-All (out ∷ outs) (e, h) = rw e (removals-All outs h)

-- In any run of a watcher that is not terminal, a removal is reported once if the watcher ends terminal,
-- and never if it does not.
pub Run-removals :
    (w w' : ConfigurationWatcher) (outs : List (Outcome (Option ChangeNotification)))
    → w.removed ≡ false
    → Run w outs w'
    → removals outs ≡ (if w'.removed then 1 else 0)
Run-removals w _ _ live idle = rw live
Run-removals w w'' _ live (call {w' = w'} {out = out} {outs = outs} step run) =
    let told = live_step w w' out live step in
    elim (Bool-cases w'.removed) [
      | inl dead ↦
          let (es, same) = Run-terminal w' w'' outs dead run in
          ground (arith, removals-All outs es, told, ap (λ v. v.removed) same)
      | inr alive ↦ ground (arith, Run-removals w' w'' outs alive run, told)
    ]
