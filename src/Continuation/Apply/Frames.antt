-- ===== src/Continuation/Apply/Frames.antt =====
-- The sequences that Apply gives to appended frames (programmable/continuation/state.go).
use keelith.Prelude.{
  ℕ, ◌+◌, ◌≤◌, ◌<◌, true, false, List, [], ◌∷◌, ◌++◌, length, suc, ◌≡◌, refl, subst, ◌≢◌, inl, inr,
  arith,
}
use keelith.Prelude.Words.{u64_mod, max_u64, add_u64}
use keelith.Prelude.Results.{ok, Result-cases}
use keelith.Continuation.Model.{
  valid_kind, is_frame_accepted, max_payload_bytes, Frame, ErrorKind, Error,
}
use keelith.Continuation.Apply.{frames_ok, append_frames}

pub frames_ok-append :
    (floor i : ℕ) (xs ys : List Frame)
    → frames_ok floor i xs ≡ true
    → frames_ok floor (i + length xs) ys ≡ true
    → frames_ok floor i (xs ++ ys) ≡ true
unfolding frames_ok
frames_ok-append floor i [] ys h k = subst (λ (n : ℕ). frames_ok floor n ys ≡ true) (omega arith) k
frames_ok-append floor i (x ∷ xs) ys h k =
    let rest : frames_ok floor (suc i + length xs) ys ≡ true =
      subst (λ (n : ℕ). frames_ok floor n ys ≡ true) (omega arith) k in
    ground (arith, frames_ok-append floor (suc i) xs ys, rest)

-- What an append of one more frame needs, and what it returns.
record Appends (fail : ErrorKind → Error) (seq : ℕ) (f : Frame) (fs : List Frame)
    (a : ℕ × List Frame) : Type 0 where
  rest : ℕ × List Frame
  runs : append_frames fail (add_u64 seq 1) fs ≡ ok rest
  room : seq ≢ max_u64
  kind_ok : valid_kind f.kind ≡ true
  not_accepted : is_frame_accepted f.kind ≡ false
  fits : length f.payload ≤ max_payload_bytes
  result : a ≡ (rest.0, record f { sequence = add_u64 seq 1 } ∷ rest.1)

append_frames-cons :
    (fail : ErrorKind → Error) (seq : ℕ) (f : Frame) (fs : List Frame) (a : ℕ × List Frame)
    → append_frames fail seq (f ∷ fs) ≡ ok a
    → Appends fail seq f fs a
unfolding append_frames
append_frames-cons fail seq f fs a h = elim (Result-cases (append_frames fail (add_u64 seq 1) fs)) [
  | inl (rest, runs) ↦ record {
    rest = rest;
    runs = runs;
    room = ground arith;
    kind_ok = ground arith;
    not_accepted = ground arith;
    fits = ground arith;
    result = ground arith;
  }
  | inr (e, stops) ↦ absurd (ground arith)
]

-- A successful append: as many frames as were given, and the last sequence is that many further on.
pub append_frames-length :
    (fail : ErrorKind → Error) (seq : ℕ) (fs : List Frame) (a : ℕ × List Frame)
    → seq < u64_mod
    → append_frames fail seq fs ≡ ok a
    → (a.0 ≡ seq + length fs) × (length a.1 ≡ length fs) × (a.0 < u64_mod)
unfolding append_frames
append_frames-length fail seq [] a r h = ground arith
append_frames-length fail seq (f ∷ fs) a r h =
    let step = append_frames-cons fail seq f fs a h in
    let next = append_frames-length fail (add_u64 seq 1) fs step.rest (omega arith) step.runs in
    rw step.result (omega (arith, step.room), omega arith, omega arith)

-- The appended frames continue a window that ends at `seq`.
pub append_frames-ok :
    (fail : ErrorKind → Error) (floor i seq : ℕ) (fs : List Frame) (a : ℕ × List Frame)
    → seq < u64_mod
    → 1 ≤ floor
    → floor + i ≡ seq + 1
    → append_frames fail seq fs ≡ ok a
    → frames_ok floor i a.1 ≡ true
unfolding append_frames frames_ok
append_frames-ok fail floor i seq [] a r p e h = ground arith
append_frames-ok fail floor i seq (f ∷ fs) a r p e h =
    let step = append_frames-cons fail seq f fs a h in
    let next =
      append_frames-ok fail floor (suc i) (add_u64 seq 1) fs step.rest (omega arith) p
        (omega (arith, step.room)) step.runs in
    rw step.result (ground (arith, next, step.room, step.kind_ok, step.not_accepted, step.fits))

-- Frames with the sequences behind seq, and nothing else changed.
unfoldable pub numbered : ℕ → List Frame → List Frame
numbered seq [] = []
numbered seq (f ∷ fs) = record f { sequence = seq + 1 } ∷ numbered (seq + 1) fs

-- The appended frames are the given ones, numbered.
pub append_frames-numbered :
    (fail : ErrorKind → Error) (seq : ℕ) (fs : List Frame) (a : ℕ × List Frame)
    → seq < u64_mod
    → append_frames fail seq fs ≡ ok a
    → a.1 ≡ numbered seq fs
unfolding append_frames numbered
append_frames-numbered fail seq [] a r h = ground (arith, h)
append_frames-numbered fail seq (f ∷ fs) a r h =
    let step = append_frames-cons fail seq f fs a h in
    let next : add_u64 seq 1 ≡ seq + 1 = omega (arith, r, step.room) in
    let rest = append_frames-numbered fail (add_u64 seq 1) fs step.rest (omega arith) step.runs in
    rw (step.result, rest, next) refl
