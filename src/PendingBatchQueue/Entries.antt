-- ===== src/PendingBatchQueue/Entries.antt =====
-- Where the searches of pending_batch_queue.cpp stop: `find_if` on the in-flight flag and on the
-- batch ID.
use pulse_mesh.Base.{
  ◌≡◌, refl, ap, ◌⊎◌, inl, inr, Bool, true, false, ◌||◌, none, some, List, [], ◌∷◌, ◌++◌, map,
  arith, Text, text_eq, text_eq_iff, All, Bool-cases,
}
use pulse_mesh.PendingBatchQueue.{
  PendingBatch, id_of, has_id, erase_id, erase_oldest_pending, mark_next, set_in_flight,
}

module _ {ℓ} {F : Type ℓ} where
  abbrev pub IsInFlight : PendingBatch F → Type 0
  IsInFlight e = e.in_flight ≡ true

  -- `es` is `before ++ e ∷ after` and `e` is the first entry that is not in flight.
  pub record Oldest (es : List (PendingBatch F)) : Type ℓ where
    pub before : List (PendingBatch F)
    pub entry : PendingBatch F
    pub after : List (PendingBatch F)
    pub splits : es ≡ before ++ entry ∷ after
    pub in_flight_before : All IsInFlight before
    pub pending : entry.in_flight ≡ false
    pub erased : erase_oldest_pending es ≡ some (before ++ after)
    pub marked : mark_next es ≡ some (entry.batch, before ++ set_in_flight true entry ∷ after)

  abbrev pub AllInFlight : List (PendingBatch F) → Type ℓ
  AllInFlight es = All IsInFlight es × (erase_oldest_pending es ≡ none) × (mark_next es ≡ none)

  Oldest-cons :
      (e : PendingBatch F) (es : List (PendingBatch F))
      → e.in_flight ≡ true
      → AllInFlight es ⊎ Oldest es
      → AllInFlight (e ∷ es) ⊎ Oldest (e ∷ es)
  unfolding erase_oldest_pending mark_next
  Oldest-cons e es f (inl (all, n, m)) = inl ((f, all), rw (f, n), rw (f, m))
  Oldest-cons e es f (inr o) = inr (record {
    before = e ∷ o.before;
    entry = o.entry;
    after = o.after;
    splits = ap (◌∷◌ e) o.splits;
    in_flight_before = (f, o.in_flight_before);
    pending = o.pending;
    erased = rw (f, o.erased);
    marked = rw (f, o.marked);
  })

  -- Both searches for the oldest pending entry find the same one, or every entry is in flight.
  pub find-Oldest : (es : List (PendingBatch F)) → AllInFlight es ⊎ Oldest es
  unfolding erase_oldest_pending mark_next
  find-Oldest [] = inl (tt, refl, refl)
  find-Oldest (e ∷ es) = elim (Bool-cases e.in_flight) [
    | inl f ↦ Oldest-cons e es f (find-Oldest es)
    | inr f ↦ inr (record {
      before = [];
      entry = e;
      after = es;
      splits = refl;
      in_flight_before = tt;
      pending = f;
      erased = rw f;
      marked = rw f;
    })
  ]

  -- `es` is `before ++ e ∷ after` and `e` is the first entry with the ID.
  pub record Identified (id : Text) (es : List (PendingBatch F)) : Type ℓ where
    pub before : List (PendingBatch F)
    pub entry : PendingBatch F
    pub after : List (PendingBatch F)
    pub splits : es ≡ before ++ entry ∷ after
    pub absent_before : has_id id before ≡ false
    pub matches : id_of entry ≡ id
    pub erased : erase_id id es ≡ before ++ after

  pub find-Identified :
      (id : Text) (es : List (PendingBatch F)) → has_id id es ≡ true → Identified id es
  unfolding has_id erase_id
  find-Identified id [] h = cc
  find-Identified id (e ∷ es) h = elim (Bool-cases (text_eq (id_of e) id)) [
    | inl hit ↦ record {
      before = [];
      entry = e;
      after = es;
      splits = refl;
      absent_before = refl;
      matches = (text_eq_iff (id_of e) id).0 hit;
      erased = rw hit;
    }
    | inr miss ↦
        let o : Identified id es = find-Identified id es (ground arith) in
        record {
          before = e ∷ o.before;
          entry = o.entry;
          after = o.after;
          splits = ap (◌∷◌ e) o.splits;
          absent_before = rw (miss, o.absent_before);
          matches = o.matches;
          erased = rw (miss, o.erased);
        }
  ]

  pub has_id-append :
      (id : Text) (xs ys : List (PendingBatch F))
      → has_id id (xs ++ ys) ≡ (has_id id xs || has_id id ys)
  unfolding has_id
  has_id-append id [] ys = refl
  has_id-append id (x ∷ xs) ys = ground (arith, has_id-append id xs ys)

  -- No two entries have the same batch ID.
  abbrev pub Distinct : List (PendingBatch F) → Type 0
  Distinct [] = Unit
  Distinct (e ∷ es) = (has_id (id_of e) es ≡ false) × Distinct es

  pub Distinct-remove :
      (xs : List (PendingBatch F)) (e : PendingBatch F) (ys : List (PendingBatch F))
      → Distinct (xs ++ e ∷ ys)
      → Distinct (xs ++ ys)
  Distinct-remove [] e ys d = d.1
  Distinct-remove (x ∷ xs) e ys d = (
    unfold has_id in
        ground (arith, has_id-append (id_of x) xs (e ∷ ys), has_id-append (id_of x) xs ys, d.0),
    Distinct-remove xs e ys d.1,
  )

  pub Distinct-push :
      (xs : List (PendingBatch F)) (e : PendingBatch F)
      → Distinct xs
      → has_id (id_of e) xs ≡ false
      → Distinct (xs ++ e ∷ [])
  unfolding has_id
  Distinct-push [] e d h = (refl, tt)
  Distinct-push (x ∷ xs) e d h = (
    ground (
      arith,
      has_id-append (id_of x) xs (e ∷ []),
      text_eq_iff (id_of x) (id_of e),
      text_eq_iff (id_of e) (id_of x),
      d.0,
    ),
    Distinct-push xs e d.1 (ground arith),
  )

  -- What survives a removal had no such ID before, and has none after.
  pub has_id-remove :
      (id : Text) (xs : List (PendingBatch F)) (e : PendingBatch F) (ys : List (PendingBatch F))
      → has_id id (xs ++ e ∷ ys) ≡ false
      → has_id id (xs ++ ys) ≡ false
  unfolding has_id
  has_id-remove id xs e ys h = ground (arith, has_id-append id xs (e ∷ ys), has_id-append id xs ys)

  -- In a list with distinct IDs the removed ID is gone.
  pub has_id-remove_self :
      (xs : List (PendingBatch F)) (e : PendingBatch F) (ys : List (PendingBatch F))
      → Distinct (xs ++ e ∷ ys)
      → has_id (id_of e) (xs ++ ys) ≡ false
  unfolding has_id
  has_id-remove_self [] e ys d = d.0
  has_id-remove_self (x ∷ xs) e ys d = ground (
    arith,
    has_id-append (id_of x) xs (e ∷ ys),
    text_eq_iff (id_of x) (id_of e),
    text_eq_iff (id_of e) (id_of x),
    text_eq_iff (id_of e) (id_of e),
    has_id-remove_self xs e ys d.1,
    d.0,
  )

  -- Marking changes neither the IDs nor their number.
  pub has_id-set_in_flight :
      (id : Text) (f : Bool) (xs : List (PendingBatch F)) (e : PendingBatch F)
      (ys : List (PendingBatch F))
      → has_id id (xs ++ set_in_flight f e ∷ ys) ≡ has_id id (xs ++ e ∷ ys)
  unfolding has_id
  has_id-set_in_flight id f [] e ys = refl
  has_id-set_in_flight id f (x ∷ xs) e ys =
      ap (◌||◌ (text_eq (id_of x) id)) (has_id-set_in_flight id f xs e ys)

  pub has_id-map :
      (id : Text) (f : Bool) (xs : List (PendingBatch F))
      → has_id id (map (set_in_flight f) xs) ≡ has_id id xs
  unfolding has_id
  has_id-map id f [] = refl
  has_id-map id f (x ∷ xs) = ap (◌||◌ (text_eq (id_of x) id)) (has_id-map id f xs)
