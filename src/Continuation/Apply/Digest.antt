-- ===== src/Continuation/Apply/Digest.antt =====
-- The bytes that a command's digest is taken of determine its frames
-- (programmable/continuation/state.go, commandDigest and writeDigestPart).
use keelith.Prelude.{ℕ, ◌<◌, List, [], ◌∷◌, ◌++◌, length, ◌≡◌, refl, sym, ◌∙◌, ◌≢◌, arith, All}
use keelith.Prelude.Text.{Text, codes}
use keelith.Prelude.Words.{u64_mod}
use mathlib.Core.List.{append_assoc}
use keelith.Continuation.Model.{kind_text, Frame}
use keelith.Continuation.Apply.{digest_input, digest_frames, digest_part, big_endian}

big_endian_injective :
    (v w : ℕ) → v < u64_mod → w < u64_mod → big_endian 8 v ≡ big_endian 8 w → v ≡ w
unfolding big_endian
big_endian_injective v w p q e = ground arith

append_injective : (a b x y : Text) → length a ≡ length b → a ++ x ≡ b ++ y → (a ≡ b) × (x ≡ y)
append_injective [] [] x y l e = (refl, e)
append_injective [] (d ∷ b) x y l e = absurd (omega arith)
append_injective (c ∷ a) [] x y l e = absurd (omega arith)
append_injective (c ∷ a) (d ∷ b) x y l e = ground (arith, append_injective a b x y)

big_endian-length : (v : ℕ) → length (big_endian 8 v) ≡ 8
unfolding big_endian
big_endian-length v = refl

digest_part_injective :
    (a b x y : Text)
    → length a < u64_mod
    → length b < u64_mod
    → digest_part a ++ x ≡ digest_part b ++ y
    → (a ≡ b) × (x ≡ y)
unfolding digest_part
digest_part_injective a b x y p q e =
    let (sizes, rest) =
      append_injective (big_endian 8 (length a)) (big_endian 8 (length b)) (a ++ x) (b ++ y)
        (big_endian-length (length a) ∙ sym (big_endian-length (length b)))
        (sym (append_assoc (big_endian 8 (length a)) a x)
          ∙ e
          ∙ append_assoc (big_endian 8 (length b)) b y) in
    append_injective a b x y (big_endian_injective _ _ p q sizes) rest

digest_part-ne_nil : (a x : Text) → digest_part a ++ x ≢ []
unfolding digest_part big_endian
digest_part-ne_nil a x e = cc

-- The parts of a frame that its digest covers.
abbrev pub covered : List Frame → List (Text × Text)
covered [] = []
covered (f ∷ fs) = (kind_text f.kind, f.payload) ∷ covered fs

-- Kinds and payloads are Go strings and slices, shorter than 2 ^ 64 bytes.
abbrev pub Fits : Frame → Type 0
Fits f = (length (kind_text f.kind) < u64_mod) × (length f.payload < u64_mod)

digest_frames_injective :
    (fs gs : List Frame)
    → All Fits fs
    → All Fits gs
    → digest_frames fs ≡ digest_frames gs
    → covered fs ≡ covered gs
unfolding digest_frames
digest_frames_injective [] [] h k e = refl
digest_frames_injective [] (g ∷ gs) h k e = absurd (digest_part-ne_nil _ _ (sym e))
digest_frames_injective (f ∷ fs) [] h k e = absurd (digest_part-ne_nil _ _ e)
digest_frames_injective (f ∷ fs) (g ∷ gs) h k e =
    let (kinds, e1) = digest_part_injective _ _ _ _ h.0.0 k.0.0 e in
    let (payloads, e2) = digest_part_injective _ _ _ _ h.0.1 k.0.1 e1 in
    ground (arith, kinds, payloads, digest_frames_injective fs gs h.1 k.1 e2)

-- Two lists of frames that give the same bytes to the hash have the same kinds and payloads, in
-- the same order: the length prefixes leave no two readings. Kinds and payloads are shorter than
-- 2 ^ 64 bytes.
pub digest_input_injective :
    (fs gs : List Frame)
    → All Fits fs
    → All Fits gs
    → digest_input fs ≡ digest_input gs
    → covered fs ≡ covered gs
unfolding digest_input
digest_input_injective fs gs h k e =
    let version : Text = codes "continuation-command-v1" in
    digest_frames_injective fs gs h k
      (digest_part_injective version version _ _ (omega arith) (omega arith) e).1
