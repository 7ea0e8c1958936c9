-- ===== src/Continuation/Retention/Laws.antt =====
-- What PruneSnapshot keeps (programmable/continuation/retention.go).
use keelith.Prelude.{
  ℕ, ◌+◌, ◌-◌, ◌≤◌, ◌<◌, leb, true, List, [], ◌∷◌, length, zero, suc, ◌≡◌, refl, ap, subst, ◌≢◌,
  inl, inr, arith, Bool-cases, length-drop, drop, keep,
}
use Prim.Native.Nat.{max}
use keelith.Prelude.Words.{u64_mod, add_u64}
use keelith.Prelude.Results.{ok, is_ok}
use keelith.Continuation.Model.{Frame, Snapshot}
use keelith.Continuation.Apply.{frames_ok, validate_snapshot}
use keelith.Continuation.Apply.Validity.{
  InRange, Parts, validate_snapshot-Parts, Parts-validate_snapshot, window-length, window_of_length,
}
use keelith.Continuation.Retention.{prune_snapshot, cut}

-- The frames from a floor on, by their sequences.
abbrev pub retained : ℕ → List Frame → List Frame
retained floor fs = keep (λ (f : Frame). leb floor f.sequence) fs

retained_all :
    (start i floor : ℕ) (fs : List Frame)
    → start + i + length fs ≤ u64_mod
    → floor ≤ start + i
    → frames_ok start i fs ≡ true
    → retained floor fs ≡ fs
unfolding frames_ok
retained_all start i floor [] b l h = refl
retained_all start i floor (f ∷ fs) b l h =
    ground (arith, retained_all start (suc i) floor fs (omega arith) (omega arith))

retained-drop :
    (start i n : ℕ) (fs : List Frame)
    → start + i + length fs ≤ u64_mod
    → frames_ok start i fs ≡ true
    → retained (start + i + n) fs ≡ drop n fs
unfolding frames_ok
retained-drop start i zero fs b h = retained_all start i (start + i + 0) fs b (omega arith) h
retained-drop start i (suc n) [] b h = refl
retained-drop start i (suc n) (f ∷ fs) b h =
    let rest : retained (start + i + suc n) fs ≡ drop n fs =
      subst (λ (k : ℕ). retained k fs ≡ drop n fs) (omega arith)
        (retained-drop start (suc i) n fs (omega arith) (ground arith)) in
    ground (arith, rest)

-- A successful PruneSnapshot raises the floor to the requested one, or keeps a higher one, retains
-- exactly the frames whose sequence is not below the requested floor, and changes nothing else.
-- The counters are uint64 values.
pub prune_snapshot-retained :
    (s : Snapshot) (floor : ℕ) (p : Snapshot)
    → InRange s
    → prune_snapshot s floor ≡ ok p
    → p ≡ record s { frame_floor = max s.frame_floor floor; frames = retained floor s.frames }
unfolding prune_snapshot
prune_snapshot-retained s floor p r h =
    let parts : Parts s = validate_snapshot-Parts s (ground arith) in
    let (positive, window) = window-length s r parts.window_ok in
    elim (Bool-cases (leb floor s.frame_floor)) [
      | inl low ↦
          let all_kept : retained floor s.frames ≡ s.frames =
            retained_all s.frame_floor 0 floor s.frames (omega (arith, r.sequence_fits))
              (ground arith) parts.frames_valid in
          let same : p ≡ s = ground arith in
          let top : max s.frame_floor floor ≡ s.frame_floor = ground arith in
          rw (same, top, all_kept)
      | inr high ↦
          let cut_kept : retained floor s.frames ≡ drop (floor - s.frame_floor) s.frames =
            subst (λ (k : ℕ). retained k s.frames ≡ drop (floor - s.frame_floor) s.frames)
              (ground arith)
              (retained-drop s.frame_floor 0 (floor - s.frame_floor) s.frames
                (omega (arith, r.sequence_fits)) parts.frames_valid) in
          let made : p ≡ cut s floor = ground arith in
          let top : max s.frame_floor floor ≡ floor = ground arith in rw (made, top, cut_kept)
    ]

frames_ok-shift :
    (start n i : ℕ) (fs : List Frame) → frames_ok (start + n) i fs ≡ frames_ok start (i + n) fs
unfolding frames_ok
frames_ok-shift start n i [] = refl
frames_ok-shift start n i (f ∷ fs) =
    let there : add_u64 (start + n) i ≡ add_u64 start (i + n) = omega arith in
    let next : frames_ok start (suc i + n) fs ≡ frames_ok start (suc (i + n)) fs =
      ap (λ (k : ℕ). frames_ok start k fs) (omega arith) in
    rw (there, frames_ok-shift start n (suc i) fs, next)

frames_ok-drop :
    (start i n : ℕ) (fs : List Frame)
    → frames_ok start i fs ≡ true
    → frames_ok start (i + n) (drop n fs) ≡ true
unfolding frames_ok
frames_ok-drop start i zero fs h = subst (λ (k : ℕ). frames_ok start k fs ≡ true) (omega arith) h
frames_ok-drop start i (suc n) [] h = refl
frames_ok-drop start i (suc n) (f ∷ fs) h =
    subst (λ (k : ℕ). frames_ok start k (drop n fs) ≡ true) (omega arith)
      (frames_ok-drop start (suc i) n fs (ground arith))

cut-InRange : (s : Snapshot) (floor : ℕ) → InRange s → floor < u64_mod → InRange (cut s floor)
cut-InRange s floor r f = record {
  revision_fits = r.revision_fits;
  fence_fits = r.fence_fits;
  sequence_fits = r.sequence_fits;
  floor_fits = f;
  frames_fit = omega (arith, r.frames_fit, length-drop (floor - s.frame_floor) s.frames);
}

cut-Parts :
    (s : Snapshot) (floor : ℕ)
    → InRange s
    → s.revision ≢ 1
    → floor < u64_mod
    → floor ≤ s.sequence + 1
    → s.frame_floor < floor
    → Parts s
    → Parts (cut s floor)
cut-Parts s floor r later f high above parts =
    let (positive, window) = window-length s r parts.window_ok in
    let n : ℕ = floor - s.frame_floor in
    let here : s.frame_floor + n ≡ floor = omega arith in
    record {
      call_ok = parts.call_ok;
      operation_ok = parts.operation_ok;
      status_ok = parts.status_ok;
      workflow_ok = parts.workflow_ok;
      timer_ok = parts.timer_ok;
      revised = parts.revised;
      window_ok =
          window_of_length (cut s floor) (cut-InRange s floor r f) (omega arith)
            (omega (arith, length-drop n s.frames));
      initial_ok = λ h. absurd (later h);
      frames_valid =
          subst (λ (k : ℕ). frames_ok k 0 (drop n s.frames) ≡ true) here
            (rw (frames_ok-shift s.frame_floor n 0 (drop n s.frames))
              (frames_ok-drop s.frame_floor 0 n s.frames parts.frames_valid));
      commands_valid = parts.commands_valid;
    }

-- On a valid snapshot that is past its first revision, PruneSnapshot accepts every positive floor
-- up to one behind the last sequence. The counters are uint64 values.
pub prune_snapshot-total :
    (s : Snapshot) (floor : ℕ)
    → InRange s
    → s.revision ≢ 1
    → validate_snapshot s ≡ ok tt
    → 1 ≤ floor
    → floor ≤ s.sequence + 1
    → floor < u64_mod
    → is_ok (prune_snapshot s floor) ≡ true
unfolding prune_snapshot
prune_snapshot-total s floor r later v low high f =
    let parts : Parts s = validate_snapshot-Parts s v in
    let (positive, window) = window-length s r parts.window_ok in
    elim (Bool-cases (leb floor s.frame_floor)) [
      | inl below ↦ rw v (ground arith)
      | inr above ↦
          let cut_ok : validate_snapshot (cut s floor) ≡ ok tt =
            Parts-validate_snapshot (cut s floor)
              (cut-Parts s floor r later f high (ground arith) parts) in
          rw (v, cut_ok) (ground arith)
    ]
