-- ===== src/Continuation/Identity.antt =====
-- programmable/continuation/model.go and lease.go: identities, operations and lease owners.
use keelith.Prelude.{
  ℕ, ◌==◌, ltb, not, Bool, false, ◌&&◌, ◌||◌, List, [], ◌∷◌, length, all, if◌then◌else◌,
}
use keelith.Prelude.Text.{Text, is_empty, is_trimmed, valid_utf8, runes, is_control}

abbrev pub max_identity_bytes : ℕ
max_identity_bytes = 512

abbrev pub max_lease_owner_bytes : ℕ
max_lease_owner_bytes = 256

-- validIdentity with the length bound as an argument: the body that validLeaseOwner shares.
unfoldable pub valid_name : ℕ → Text → Bool
unfolding runes valid_utf8 is_trimmed
valid_name limit s =
    not (is_empty s || ltb limit (length s) || not (is_trimmed s) || not (valid_utf8 s))
    && all (λ r. not (is_control r.point)) (runes s)

unfoldable pub valid_identity : Text → Bool
unfolding valid_name
valid_identity s = valid_name max_identity_bytes s

unfoldable pub valid_lease_owner : Text → Bool
unfolding valid_name
valid_lease_owner s = valid_name max_lease_owner_bytes s

-- A byte in front of the first part.
extend : ℕ → List Text → List Text
extend c [] = (c ∷ []) ∷ []
extend c (part ∷ parts) = (c ∷ part) ∷ parts

-- strings.Split(s, "/")
split_slash : Text → List Text
unfolding extend
split_slash [] = [] ∷ []
split_slash (c ∷ s) = let rest = split_slash s in if c == b'/' then [] ∷ rest else extend c rest

valid_parts : List Text → Bool
valid_parts (service ∷ method ∷ []) = valid_identity service && valid_identity method
valid_parts _ = false

-- "/service/method", of the text behind the leading slash.
valid_path : Text → Bool
unfolding split_slash valid_parts
valid_path [] = false
valid_path (c ∷ s) = c == b'/' && valid_parts (split_slash s)

unfoldable pub valid_operation : Text → Bool
unfolding valid_identity valid_path
valid_operation s = valid_identity s && valid_path s
