-- ===== src/Vmtest/Download/Whole.antt =====
-- A download that succeeds leaves one whole response: xtask/src/vmtest/kernel.rs.
use sakai.Attempts.{return, Ends, for_attempts-Ends}
use sakai.Base.{
  ltb, Bool-cases, Result, ok, err, ℕ, ◌≤◌, ◌≡◌, refl, sym, ap, ◌∙◌, subst, inl, inr, ◌&&◌, Option,
  none, some, List, [], ◌∷◌, ◌++◌, append-nil, append_assoc, arith,
}
use sakai.Os.{IoError}
use sakai.Http.{RequestError, Attempted, retryable}
use sakai.Notification.{Duration}
use sakai.Str.{Str}
use sakai.Vmtest.Download.{
  Clock, checked_mul, Chunk, received, lost, unwritten, Download, Reply, Partial, write_chunks,
  of_create, of_status, download_once, max_download_attempts, Progress, pause, download_attempt,
  exhausted, download_body, download,
}
use mathlib.Core.Option

-- The body of a response whose parts were all received and written.
abbrev pub whole : List Chunk → Option Str
whole [] = some []
whole (received text ∷ chunks) = Option.map (λ (rest : Str). text ++ rest) (whole chunks)
whole (lost e ∷ chunks) = none
whole (unwritten e text ∷ chunks) = none

-- A response without an error, and its whole body.
abbrev pub IsDelivered : Reply → Str → Type 0
IsDelivered reply text =
    (d : Download) × (reply ≡ ok d)
    × (d.error_for_status ≡ ok tt)
    × (d.create ≡ ok tt)
    × (whole d.chunks ≡ some text)

write_chunks-whole :
    (chunks : List Chunk) (output : Str) (p : Partial)
    → write_chunks chunks output ≡ (ok tt, p)
    → (text : Str) × (whole chunks ≡ some text) × (p ≡ some (output ++ text))
unfolding write_chunks
write_chunks-whole [] output p h =
    ([], refl, sym (ap (λ r. r.1) h) ∙ ap some (sym (append-nil output)))
write_chunks-whole (received text ∷ chunks) output p h =
    let (rest, e, e') = write_chunks-whole chunks (output ++ text) p h in
    (text ++ rest, rw e refl, e' ∙ ap some (append_assoc output text rest))
write_chunks-whole (lost e ∷ chunks) output p h = cc
write_chunks-whole (unwritten e text ∷ chunks) output p h = cc

module _ (clock : Clock) where
  download_once-IsDelivered :
      (reply : Reply) (partial p : Partial)
      → download_once clock reply partial ≡ (ok tt, p)
      → (text : Str) × IsDelivered reply text × (p ≡ some text)
  unfolding download_once
  download_once-IsDelivered (err e) partial p h = cc
  download_once-IsDelivered (ok d) partial p h = by_status d.error_for_status refl h
    where
      by_create :
          (created : Result IoError (Unit {0}))
          → d.create ≡ created
          → d.error_for_status ≡ ok tt
          → of_create clock d.chunks partial created ≡ (ok tt, p)
          → (text : Str) × IsDelivered (ok d) text × (p ≡ some text)
      by_create (err e) same status h = cc
      by_create (ok done) same status h =
          let (text, e, e') = write_chunks-whole d.chunks [] p h in
          (text, (d, refl, status, same, e), e')

      by_status :
          (status : Result RequestError (Unit {0}))
          → d.error_for_status ≡ status
          → of_status clock d partial status ≡ (ok tt, p)
          → (text : Str) × IsDelivered (ok d) text × (p ≡ some text)
      by_status (err e) same h = cc
      by_status (ok done) same h = by_create d.create refl same h

module _ (url : Str) (retry_delay : Duration) where
  download_attempt-ok :
      (n : ℕ) (waits : List Duration) (r : Attempted (Unit {0}) × Partial) (t : Progress)
      → download_attempt url retry_delay n waits r ≡ return (ok tt) t
      → r ≡ (ok tt, t.partial)
  unfolding download_attempt
  download_attempt-ok n waits (ok done, partial) t h = ground arith
  download_attempt-ok n waits (err error, partial) t h =
      elim (Bool-cases (ltb n max_download_attempts && retryable error)) [
        | inl again ↦ paused (checked_mul retry_delay n) (rw again at h)
        | inr last ↦ cc (rw last at h)
      ]
    where
      paused :
          (backoff : Option Duration)
          → pause url retry_delay error partial waits backoff ≡ return (ok tt) t
          → Path (Attempted (Unit {0}) × Partial) (err error, partial) (ok tt, t.partial)
      paused none h = cc
      paused (some backoff) h = cc

  module _ (clock : Clock) (replies : ℕ → Reply) where
    -- A download that succeeds leaves a file that is the whole body of the response to one of its
    -- three attempts, and nothing of the other attempts or of the file before.
    pub download-IsDelivered :
        (partial : Partial) (t : Progress)
        → download url retry_delay clock replies partial ≡ (ok tt, t)
        → (k : ℕ) × (text : Str) × (1 ≤ k)
          × (k ≤ max_download_attempts)
          × IsDelivered (replies k) text
          × (t.partial ≡ some text)
    unfolding download
    download-IsDelivered partial t h = of_end (
        subst (Ends (download_body url retry_delay clock replies) _ max_download_attempts 1 _) h (
          for_attempts-Ends (download_body url retry_delay clock replies) _ max_download_attempts 1
            _))
      where
        of_end :
            Ends
              (download_body url retry_delay clock replies)
              (exhausted url retry_delay)
              max_download_attempts
              1
              (record { partial = partial; waits = [] })
              (ok tt, t)
            → (k : ℕ) × (text : Str) × (1 ≤ k)
              × (k ≤ max_download_attempts)
              × IsDelivered (replies k) text
              × (t.partial ≡ some text)
        of_end (inl (k, u, low, high, c, r)) =
            let once = download_attempt-ok k u.waits _ t r in
            let (text, delivered, e) =
              download_once-IsDelivered clock (replies k) u.partial t.partial once in
            (k, text, low, omega arith, delivered, e)
        of_end (inr (c, e)) = cc e
