-- ===== src/Optimize/Reuse/Tuples.antt =====
-- reuse.rs: the producers of a block are the tuples that it binds.
use nexl.Prelude.{
  ℕ, ◌≤◌, some, String, List, [], ◌∷◌, ◌≡◌, ap, ◌∙◌, sym, ◌⊎◌, ◌==◌, length, Bool-cases, inl, inr,
  arith, In, ==_iff,
}
use nexl.Ir.{VarId, Atom, Rhs, make_tuple, LetBind, let_bind}
use nexl.Optimize.Reuse.{ReuseOp, VarMap, lookup, put, tuple_producers}

-- A variable is bound to a tuple of so many fields.
abbrev pub BindsTuple : List LetBind → VarId → ℕ → Type 0
BindsTuple binds v n =
    (ctor : String) × (fields : List Atom) × In (let_bind v (make_tuple ctor fields)) binds
    × (length fields ≡ n)

-- Both variables are bound to tuples, of the numbers of fields that are recorded, the producer to
-- nothing else, and the producer's tuple has as many fields as the consumer's or more.
abbrev pub IsLargeEnough : ReuseOp → List LetBind → Type 0
IsLargeEnough o binds =
    BindsTuple binds o.producer o.producer_fields
    × BindsTuple binds o.consumer o.consumer_fields
    × (o.consumer_fields ≤ o.producer_fields)
    × ((rhs : Rhs)
        → In (let_bind o.producer rhs) binds
        → (ctor : String) × (fields : List Atom) × (rhs ≡ make_tuple ctor fields)
          × (o.consumer_fields ≤ length fields))

lookup-put :
    (v x : VarId) (n m : ℕ) (entries : VarMap)
    → lookup (put x n entries) v ≡ some m
    → ((v ≡ x) × (n ≡ m)) ⊎ (lookup entries v ≡ some m)
unfolding lookup put
lookup-put v x n m [] h = elim (Bool-cases (v == x)) [
  | inl same ↦ inl ((==_iff v x).0 same, ground (arith, h, same))
  | inr other ↦ absurd (ground (arith, h, other))
]
lookup-put v x n m ((y, k) ∷ entries) h = elim (Bool-cases (x == y)) [
  | inl at ↦
      let x-is-y = (==_iff x y).0 at in
      elim (Bool-cases (v == y)) [
        | inl same ↦ inl ((==_iff v y).0 same ∙ sym x-is-y, ground (arith, h, at, same, x-is-y))
        | inr other ↦ inr (ground (arith, h, at, other, x-is-y))
      ]
  | inr off ↦ elim (Bool-cases (v == y)) [
    | inl same ↦ inr (ground (arith, h, off, same))
    | inr other ↦ elim (lookup-put v x n m entries (ground (arith, h, off, other))) [
      | inl found ↦ inl found
      | inr old ↦ inr (rw other old)
    ]
  ]
]

tuple_producers-binds :
    (bs : List LetBind) (producers : VarMap) (v : VarId) (n : ℕ)
    → lookup (tuple_producers bs producers) v ≡ some n
    → BindsTuple bs v n ⊎ (lookup producers v ≡ some n)
unfolding tuple_producers
tuple_producers-binds [] producers v n h = inr h
tuple_producers-binds (let_bind x (make_tuple ctor fields) ∷ bs) producers v n h =
    elim (tuple_producers-binds bs (put x (length fields) producers) v n h) [
      | inl (c, fs, i, e) ↦ inl (c, fs, inr i, e)
      | inr at ↦ elim (lookup-put v x (length fields) n producers at) [
        | inl (v-is-x, size) ↦
            inl (ctor, fields, inl (ap (λ y. let_bind y (make_tuple ctor fields)) v-is-x), size)
        | inr old ↦ inr old
      ]
    ]
tuple_producers-binds (let_bind x _ ∷ bs) producers v n h =
    elim (tuple_producers-binds bs producers v n h) [
      | inl (c, fs, i, e) ↦ inl (c, fs, inr i, e)
      | inr old ↦ inr old
    ]

pub tuple_producers-known :
    (binds : List LetBind) (v : VarId) (n : ℕ)
    → lookup (tuple_producers binds []) v ≡ some n
    → BindsTuple binds v n
unfolding lookup
tuple_producers-known binds v n h = elim (tuple_producers-binds binds [] v n h) [
  | inl b ↦ b
  | inr none_ ↦ absurd (ground (arith, none_))
]
