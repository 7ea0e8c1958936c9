-- ===== src/Continuation/Store/Validity.antt =====
-- What holds of the store between two calls (programmable/continuation/memory).
use keelith.Prelude.{true, false, none, some, ◌≡◌, inl, inr, arith, Bool-cases}
use keelith.Prelude.Text.{Text, text_eq, text_eq_iff}
use keelith.Prelude.Maps.{
  Map, lookup, insert, delete, lookup-insert, lookup-delete, Every, insert-Every, delete-Every,
}
use keelith.Continuation.Model.{Snapshot}
use keelith.Continuation.Store.{LeaseRecord, Store, new_store}
use keelith.Continuation.Store.Takeover.{Sound}

-- A lease stands for the revision and the fence that its call has now.
abbrev pub LeaseOf : Map Snapshot → Text → LeaseRecord → Type 0
LeaseOf records id l =
    (c : Snapshot) × (lookup id records ≡ some c) × (l.revision ≡ c.revision) × (l.fence ≡ c.fence)

-- Every record is valid and stands under its call's identity, and every lease fits its call.
pub record Inv (records : Map Snapshot) (leases : Map LeaseRecord) : Type 0 where
  pub recorded : Every (λ (id : Text) (c : Snapshot). Sound c × (c.call_id ≡ id)) records
  pub leased : Every (LeaseOf records) leases

abbrev pub IsValid : Store → Type 0
IsValid s = Inv s.records s.leases

pub new_store-IsValid : IsValid new_store
unfolding lookup
new_store-IsValid = record {
  recorded = λ id c e. absurd (ground arith);
  leased = λ id l e. absurd (ground arith);
}

module _ {records : Map Snapshot} {leases : Map LeaseRecord} (v : Inv records leases)
    (id : Text) where
  abbrev Recorded : Text → Snapshot → Type 0
  Recorded k c = Sound c × (c.call_id ≡ k)

  -- A lease of another call is unaffected by a write of the record.
  LeaseOf-insert :
      (c : Snapshot) (k : Text) (l : LeaseRecord)
      → text_eq id k ≡ false
      → LeaseOf records k l
      → LeaseOf (insert id c records) k l
  LeaseOf-insert c k l n (d, e, r, f) = (d, rw (lookup-insert id k c records, n) e, r, f)

  LeaseOf-self :
      (c : Snapshot) (k : Text) (l : LeaseRecord)
      → text_eq id k ≡ true
      → l.revision ≡ c.revision
      → l.fence ≡ c.fence
      → LeaseOf (insert id c records) k l
  LeaseOf-self c k l y r f = (c, rw (lookup-insert id k c records, y), r, f)

  module _ (c : Snapshot) (sound : Sound c) (keyed : c.call_id ≡ id) where
    Recorded-insert : Every Recorded (insert id c records)
    Recorded-insert = insert-Every Recorded id c records (sound, keyed) v.recorded

    -- The record is replaced and the lease dropped.
    pub put_unleased : Inv (insert id c records) (delete id leases)
    put_unleased = record {
      recorded = Recorded-insert;
      leased = λ k l e. elim (Bool-cases (text_eq id k)) [
        | inl y ↦ absurd (ground (arith, lookup-delete id k leases))
        | inr n ↦ LeaseOf-insert c k l n (v.leased k l (ground (arith, lookup-delete id k leases)))
      ];
    }

    -- The record is replaced together with its lease.
    pub put_leased :
        (l : LeaseRecord)
        → l.revision ≡ c.revision
        → l.fence ≡ c.fence
        → Inv (insert id c records) (insert id l leases)
    put_leased l r f = record {
      recorded = Recorded-insert;
      leased = λ k w e. elim (Bool-cases (text_eq id k)) [
        | inl y ↦
            LeaseOf-self c k w y (ground (arith, lookup-insert id k l leases))
              (ground (arith, lookup-insert id k l leases))
        | inr n ↦
            LeaseOf-insert c k w n (v.leased k w (ground (arith, lookup-insert id k l leases)))
      ];
    }

    -- The record is replaced where there is no lease.
    pub put_free : lookup id leases ≡ none → Inv (insert id c records) leases
    put_free free = record {
      recorded = Recorded-insert;
      leased = λ k w e. elim (Bool-cases (text_eq id k)) [
        | inl y ↦ absurd (ground (arith, (text_eq_iff id k).0 y))
        | inr n ↦ LeaseOf-insert c k w n (v.leased k w e)
      ];
    }

    -- The record is replaced by one with the same revision and fence.
    pub put_same :
        (d : Snapshot)
        → lookup id records ≡ some d
        → c.revision ≡ d.revision
        → c.fence ≡ d.fence
        → Inv (insert id c records) leases
    put_same d there r f = record {
      recorded = Recorded-insert;
      leased = λ k w e. elim (Bool-cases (text_eq id k)) [
        | inl y ↦
            let (d', e', r', f') = v.leased k w e in
            let at : id ≡ k = (text_eq_iff id k).0 y in
            let one : d' ≡ d = ground (arith, at) in
            LeaseOf-self c k w y (ground (arith, one)) (ground (arith, one))
        | inr n ↦ LeaseOf-insert c k w n (v.leased k w e)
      ];
    }

  -- The lease is dropped.
  pub unlease : Inv records (delete id leases)
  unlease = record {
    recorded = v.recorded;
    leased = delete-Every (LeaseOf records) id leases v.leased;
  }

  -- The lease is replaced by one for the same revision and fence.
  pub relet : (l : LeaseRecord) → LeaseOf records id l → Inv records (insert id l leases)
  relet l fits = record {
    recorded = v.recorded;
    leased = insert-Every (LeaseOf records) id l leases fits v.leased;
  }

  -- The call is removed.
  pub remove : Inv (delete id records) (delete id leases)
  remove = record {
    recorded = delete-Every Recorded id records v.recorded;
    leased = λ k w e. elim (Bool-cases (text_eq id k)) [
      | inl y ↦ absurd (ground (arith, lookup-delete id k leases))
      | inr n ↦
          let (d, e', r, f) = v.leased k w (ground (arith, lookup-delete id k leases)) in
          (d, rw (lookup-delete id k records, n) e', r, f)
    ];
  }
