-- ===== src/Tests/Cache.antt =====
-- cache/memory: a load that an invalidation overtakes, and a value with a time to live.
use keelith.Prelude.{false, [], ◌∷◌, none, ◌≡◌, refl}
use keelith.Prelude.Text.{text_eq, codes}
use keelith.Prelude.Int.{pos}
use keelith.Prelude.Maps.{lookup}
use keelith.Prelude.Results.{ok, err}
use keelith.Cache
use keelith.Cache.{
  Store, Call, gets, sets, history, new_store, set, set_if_version, apply_invalidation, miss,
}
use keelith.Cache.Versions.{stale_load-suppressed}
use keelith.Cache.Expiry.{get-set}

abbrev invalidated : Store
invalidated = (apply_invalidation none (codes "a") 7 (history [] new_store)).0

stale_load-suppressed_example :
    set_if_version none 5
      (codes "a")
      (codes "old")
      (pos 60)
      0
      (history (sets none 4 (codes "b") (codes "x") (pos 0) ∷ []) invalidated)
    ≡ (history (sets none 4 (codes "b") (codes "x") (pos 0) ∷ []) invalidated, ok false)
unfolding Cache.current_version apply_invalidation history lookup
stale_load-suppressed_example =
    stale_load-suppressed (codes "a") (codes "old") none 0 new_store []
      (sets none 4 (codes "b") (codes "x") (pos 0) ∷ []) 7 5 (pos 60) refl refl

get-set_example :
    (Cache.get none 99 (codes "a") (
      history
        (gets none 50 (codes "b") ∷ [])
        (set none 10 (codes "a") (codes "v") (pos 60) new_store).0)).1
    ≡ err miss
unfolding text_eq
get-set_example =
    get-set (codes "a") (codes "v") (pos 60) 10 99 new_store (gets none 50 (codes "b") ∷ [])
      (refl, tt)
