-- ===== src/EventRing/Ascending.antt =====
-- Lists of records whose sequence numbers ascend, and the pages of such a list.
use modular_agent_core.Prelude.{
  ℕ, zero, suc, ◌≤◌, ◌<◌, ◌≡◌, refl, sym, ap, ◌∙◌, Bool, false, Bool-cases, inl, inr, List, [], ◌∷◌,
  ◌++◌, length, length-append, retain, take, leb, ltb, arith,
}
use modular_agent_core.EventRing.{ring_capacity, pop_front, push_back}

module _ {R : Type 0} (seq : R → ℕ) where
  -- The numbers ascend from above `lo`.
  abbrev pub Ascending : ℕ → List R → Type 0
  Ascending lo [] = Unit
  Ascending lo (r ∷ records) = (lo < seq r) × Ascending (seq r) records

  abbrev pub AtMost : ℕ → List R → Type 0
  AtMost hi [] = Unit
  AtMost hi (r ∷ records) = (seq r ≤ hi) × AtMost hi records

  abbrev pub after : ℕ → List R → List R
  after since records = retain (λ r. ltb since (seq r)) records

  -- The cursor of the next page: the number of the last record of this one.
  abbrev pub cursor : ℕ → List R → ℕ
  cursor since [] = since
  cursor since (r ∷ page) = cursor (seq r) page

  Ascending-from_lower :
      (lo lo' : ℕ) (records : List R) → lo ≤ lo' → Ascending lo' records → Ascending lo records
  Ascending-from_lower lo lo' [] le h = tt
  Ascending-from_lower lo lo' (r ∷ records) le h = (omega (arith, le, h.0), h.1)

  pub AtMost-up :
      (hi hi' : ℕ) (records : List R) → hi ≤ hi' → AtMost hi records → AtMost hi' records
  AtMost-up hi hi' [] le h = tt
  AtMost-up hi hi' (r ∷ records) le h = (omega (arith, le, h.0), AtMost-up hi hi' records le h.1)

  append-Ascending :
      (lo hi : ℕ) (records : List R) (r : R)
      → Ascending lo records
      → AtMost hi records
      → lo ≤ hi
      → hi < seq r
      → Ascending lo (records ++ r ∷ [])
  append-Ascending lo hi [] r h most le lt = (omega (arith, le, lt), tt)
  append-Ascending lo hi (q ∷ records) r h most le lt =
      (h.0, append-Ascending (seq q) hi records r h.1 most.1 most.0 lt)

  append-AtMost :
      (hi : ℕ) (records : List R) (r : R)
      → AtMost hi records
      → hi < seq r
      → AtMost (seq r) (records ++ r ∷ [])
  append-AtMost hi [] r most lt = (omega arith, tt)
  append-AtMost hi (q ∷ records) r most lt =
      (omega (arith, most.0, lt), append-AtMost hi records r most.1 lt)

  pop_front-Ascending :
      (lo : ℕ) (records : List R) → Ascending lo records → Ascending lo (pop_front records)
  pop_front-Ascending lo [] h = tt
  pop_front-Ascending lo (r ∷ records) h =
      Ascending-from_lower lo (seq r) records (omega (arith, h.0)) h.1

  pop_front-AtMost : (hi : ℕ) (records : List R) → AtMost hi records → AtMost hi (pop_front records)
  pop_front-AtMost hi [] h = tt
  pop_front-AtMost hi (r ∷ records) h = h.1

  pop_front-length :
      (records : List R)
      → length records ≤ ring_capacity
      → suc (length (pop_front records)) ≤ ring_capacity
  pop_front-length [] h = omega arith
  pop_front-length (r ∷ records) h = h

  -- A buffer that holds at most 200 records, in the order of their numbers, up to the number `hi`.
  pub record IsBuffer (hi : ℕ) (records : List R) : Type 0 where
    pub ascending : Ascending 0 records
    pub at_most : AtMost hi records
    pub bounded : length records ≤ ring_capacity

  append-IsBuffer :
      (hi : ℕ) (records : List R) (r : R)
      → Ascending 0 records
      → AtMost hi records
      → suc (length records) ≤ ring_capacity
      → hi < seq r
      → IsBuffer (seq r) (records ++ r ∷ [])
  append-IsBuffer hi records r h most room lt = record {
    ascending = append-Ascending 0 hi records r h most (omega arith) lt;
    at_most = append-AtMost hi records r most lt;
    bounded = omega (arith, room, length-append records (r ∷ []));
  }

  pub push_back-IsBuffer :
      (hi : ℕ) (records : List R) (r : R)
      → IsBuffer hi records
      → hi < seq r
      → IsBuffer (seq r) (push_back records r)
  unfolding push_back
  push_back-IsBuffer hi records r h lt = elim (Bool-cases (leb ring_capacity (length records))) [
    | inl full ↦ rw full (
        append-IsBuffer hi (pop_front records) r (pop_front-Ascending 0 records h.ascending)
          (pop_front-AtMost hi records h.at_most) (pop_front-length records h.bounded) lt)
    | inr room ↦
        rw room (append-IsBuffer hi records r h.ascending h.at_most (ground (arith, room)) lt)
  ]

  retain-Ascending :
      (p : R → Bool) (lo : ℕ) (records : List R)
      → Ascending lo records
      → Ascending lo (retain p records)
  retain-Ascending p lo [] h = tt
  retain-Ascending p lo (r ∷ records) h = elim (Bool-cases (p r)) [
    | inl e ↦ rw e (h.0, retain-Ascending p (seq r) records h.1)
    | inr e ↦ rw e (
        retain-Ascending p lo records
          (Ascending-from_lower lo (seq r) records (omega (arith, h.0)) h.1))
  ]

  after-Ascending :
      (since lo : ℕ) (records : List R)
      → Ascending lo records
      → Ascending since (after since records)
  after-Ascending since lo [] h = tt
  after-Ascending since lo (r ∷ records) h = elim (Bool-cases (ltb since (seq r))) [
    | inl e ↦
        rw e (ground (arith, e), retain-Ascending (λ q. ltb since (seq q)) (seq r) records h.1)
    | inr e ↦ rw e (after-Ascending since (seq r) records h.1)
  ]

  after-all :
      (since : ℕ) (records : List R) → Ascending since records → after since records ≡ records
  after-all since [] h = refl
  after-all since (r ∷ records) h =
      let lower = Ascending-from_lower since (seq r) records (omega (arith, h.0)) h.1 in
      ground (arith, h.0, after-all since records lower)

  cursor-up :
      (limit since : ℕ) (records : List R)
      → Ascending since records
      → since ≤ cursor since (take limit records)
  cursor-up zero since records h = omega arith
  cursor-up (suc limit) since [] h = omega arith
  cursor-up (suc limit) since (r ∷ records) h =
      omega (arith, h.0, cursor-up limit (seq r) records h.1)

  -- What the page leaves is what lies behind its cursor.
  page-after :
      (limit since : ℕ) (records : List R)
      → Ascending since records
      → records ≡ take limit records ++ after (cursor since (take limit records)) records
  page-after zero since [] h = refl
  page-after zero since (r ∷ records) h = sym (after-all since (r ∷ records) h)
  page-after (suc limit) since [] h = refl
  page-after (suc limit) since (r ∷ records) h =
      let c = cursor (seq r) (take limit records) in
      let behind : ltb c (seq r) ≡ false = ground (arith, cursor-up limit (seq r) records h.1) in
      rw behind (ap (λ l. r ∷ l) (page-after limit (seq r) records h.1))

  retain-after :
      (p : R → Bool) (since c : ℕ) (records : List R)
      → since ≤ c
      → after c (retain p (after since records)) ≡ retain p (after c records)
  retain-after p since c [] le = refl
  retain-after p since c (r ∷ records) le = elim (Bool-cases (p r)) [
    | inl e ↦ ground (arith, e, le, retain-after p since c records le)
    | inr e ↦ ground (arith, e, le, retain-after p since c records le)
  ]

  pub page-lem :
      (p : R → Bool) (limit since lo : ℕ) (records : List R)
      → Ascending lo records
      → retain p (after since records)
        ≡ take limit (retain p (after since records))
          ++ retain p (after (cursor since (take limit (retain p (after since records)))) records)
  page-lem p limit since lo records h =
      let found = retain p (after since records) in
      let up =
        retain-Ascending p since (after since records) (after-Ascending since lo records h) in
      page-after limit since found up
      ∙ ap (λ l. take limit found ++ l)
          (retain-after p since (cursor since (take limit found)) records
            (cursor-up limit since found up))
