-- ===== src/Gateway/Mids.antt =====
-- nan/gateway.py: `_accept_mid`. The cache is the list of its keys, the oldest first.
use nan_itself.Base.{
  ℕ, zero, suc, ◌+◌, ◌-◌, ◌/◌, ◌≤◌, String, ◌≡◌, refl, sym, ap, ◌∙◌, subst, inl, inr, Bool, true,
  false, Option, none, some, List, [], ◌∷◌, ◌++◌, append_assoc, arith, ltb, if◌then◌else◌,
  Bool-cases, contains, ==_refl, string_eq, nat_eq, length, length-append, contains-append,
}

-- `xs[n:]`
abbrev pub drop {ℓ} : {A : Type ℓ} → ℕ → List A → List A
drop zero xs = xs
drop (suc n) [] = []
drop (suc n) (x ∷ xs) = drop n xs

-- `max(1, size // 2)`: how many keys go when the cache is too large.
abbrev pub surplus : (size : ℕ) → ℕ
surplus size = if ltb 1 (size / 2) then size / 2 else 1

abbrev pub evict : (size : ℕ) → List String → List String
evict size seen = if ltb size (length seen) then drop (surplus size) seen else seen

-- `_accept_mid`: the cache afterwards, and whether the input is taken.
unfoldable pub accept_mid : (size : ℕ) → Option String → List String → List String × Bool
accept_mid size none seen = (seen, true)
accept_mid size (some m) seen =
    if contains seen m then (seen, false) else (evict size (seen ++ m ∷ []), true)

-- A run of inputs: the cache afterwards, and which were taken.
unfoldable pub accept_mids :
    (size : ℕ) → List (Option String) → List String → List String × List Bool
unfolding accept_mid
accept_mids size [] seen = (seen, [])
accept_mids size (m ∷ ms) seen =
    let (seen', taken) = accept_mid size m seen in
    let (seen'', rest) = accept_mids size ms seen' in (seen'', taken ∷ rest)

-- How many inputs with a mid were taken.
abbrev pub fresh : List (Option String) → List Bool → ℕ
fresh (some m ∷ ms) (true ∷ bs) = suc (fresh ms bs)
fresh (_ ∷ ms) (_ ∷ bs) = fresh ms bs
fresh _ _ = 0

length-drop {ℓ} : {A : Type ℓ} (n : ℕ) (xs : List A) → length (drop n xs) ≡ length xs - n
length-drop zero xs = omega arith
length-drop (suc n) [] = omega arith
length-drop (suc n) (x ∷ xs) = omega (arith, length-drop n xs)

drop-append {ℓ} :
    {A : Type ℓ} (n : ℕ) (xs ys : List A) → n ≤ length xs → drop n (xs ++ ys) ≡ drop n xs ++ ys
drop-append zero xs ys h = refl
drop-append (suc n) [] ys h = absurd (omega arith)
drop-append (suc n) (x ∷ xs) ys h = drop-append n xs ys (omega arith)

-- The cache never outgrows its size, which may also be 0.
pub accept_mid-bound :
    (size : ℕ) (m : Option String) (seen : List String)
    → length seen ≤ size
    → length (accept_mid size m seen).0 ≤ size
unfolding accept_mid
accept_mid-bound size none seen h = h
accept_mid-bound size (some m) seen h =
    ground (arith, length-append seen (m ∷ []), length-drop (surplus size) (seen ++ m ∷ []))

-- `m` stands in the cache with so many keys after it.
abbrev Behind : (size : ℕ) → String → ℕ → List String → Type 0
Behind size m n seen =
    (before : List String) × (after : List String) × (seen ≡ before ++ m ∷ after)
    × (length after ≡ n)
    × (length seen ≤ size)

contains-middle :
    (m : String) (before after : List String) → contains (before ++ m ∷ after) m ≡ true
contains-middle m before after = ground (arith, contains-append before (m ∷ after) m, ==_refl m)

evict-Behind :
    (size : ℕ) (m : String) (before after : List String)
    → 1 ≤ size
    → length (before ++ m ∷ after) ≤ suc size
    → length after ≤ size - surplus size
    → Behind size m (length after) (evict size (before ++ m ∷ after))
evict-Behind size m before after some_ bound h =
    elim (Bool-cases (ltb size (length (before ++ m ∷ after)))) [
      | inl over ↦
          let fits : surplus size ≤ length before =
            ground (arith, length-append before (m ∷ after)) in
          let shorter : length (drop (surplus size) (before ++ m ∷ after)) ≤ size =
            ground (arith, length-drop (surplus size) (before ++ m ∷ after)) in
          rw over (
            drop (surplus size) before,
            after,
            drop-append (surplus size) before (m ∷ after) fits,
            refl,
            shorter,
          )
      | inr within ↦ rw within (before, after, refl, refl, ground arith)
    ]

-- Another mid is met.
accept_mid-Behind :
    (size : ℕ) (m x : String) (n : ℕ) (seen : List String)
    → 1 ≤ size
    → Behind size m n seen
    → suc n ≤ size - surplus size
    → Behind size m (suc n) (evict size (seen ++ x ∷ []))
accept_mid-Behind size m x n seen some_ (before, after, e, k, bound) h =
    let longer : length (after ++ x ∷ []) ≡ suc n =
      omega (arith, k, length-append after (x ∷ [])) in
    let moved : seen ++ x ∷ [] ≡ before ++ m ∷ (after ++ x ∷ []) =
      ap (λ s. s ++ x ∷ []) e ∙ append_assoc before (m ∷ after) (x ∷ []) in
    let bound' : length (before ++ m ∷ (after ++ x ∷ [])) ≤ suc size =
      subst (λ s. length s ≤ suc size) moved (omega (arith, bound, length-append seen (x ∷ []))) in
    let kept =
      evict-Behind size m before (after ++ x ∷ []) some_ bound' (omega (arith, longer, h)) in
    subst (λ s. Behind size m (suc n) (evict size s)) (sym moved)
      (subst (λ j. Behind size m j (evict size (before ++ m ∷ (after ++ x ∷ [])))) longer kept)

Behind-contains :
    (size : ℕ) (m : String) (n : ℕ) (seen : List String)
    → Behind size m n seen
    → contains seen m ≡ true
Behind-contains size m n seen (before, after, e, k, bound) =
    ap (λ s. contains s m) e ∙ contains-middle m before after

accept_mids-Behind :
    (size : ℕ) (m : String) (ms : List (Option String)) (n : ℕ) (seen : List String)
    → 1 ≤ size
    → Behind size m n seen
    → n + fresh ms (accept_mids size ms seen).1 ≤ size - surplus size
    → contains (accept_mids size ms seen).0 m ≡ true
unfolding accept_mids accept_mid
accept_mids-Behind size m [] n seen some_ b h = Behind-contains size m n seen b
accept_mids-Behind size m (none ∷ ms) n seen some_ b h =
    accept_mids-Behind size m ms n seen some_ b h
accept_mids-Behind size m (some x ∷ ms) n seen some_ b h = elim (Bool-cases (contains seen x)) [
  | inl known ↦ rw known (accept_mids-Behind size m ms n seen some_ b (rw known at h))
  | inr new ↦
      let h' : n + suc (fresh ms (accept_mids size ms (evict size (seen ++ x ∷ []))).1)
          ≤ size - surplus size =
        rw new at h in
      rw new (
        accept_mids-Behind size m ms (suc n) (evict size (seen ++ x ∷ [])) some_
          (accept_mid-Behind size m x n seen some_ b (omega (arith, h'))) (omega (arith, h')))
]

-- An input is taken once. After one with a mid that the cache does not hold, which is taken, the same
-- mid is refused as long as no more other mids are taken than the size less the half of it that an
-- eviction removes (less one, where the half is nothing); the cache must have room for one key.
pub accept_mid-once :
    (size : ℕ) (m : String) (ms : List (Option String)) (seen : List String)
    → 1 ≤ size
    → length seen ≤ size
    → contains seen m ≡ false
    → fresh ms (accept_mids size ms (accept_mid size (some m) seen).0).1 ≤ size - surplus size
    → let (seen', taken) = accept_mid size (some m) seen in
      let (seen'', others) = accept_mids size ms seen' in
      (taken ≡ true) × (accept_mid size (some m) seen'' ≡ (seen'', false))
unfolding accept_mid
accept_mid-once size m ms seen some_ bound new few =
    let b =
      evict-Behind size m seen [] some_ (omega (arith, bound, length-append seen (m ∷ [])))
        (omega arith) in
    let few' : fresh ms (accept_mids size ms (evict size (seen ++ m ∷ []))).1
        ≤ size - surplus size =
      rw new at few in
    rw new (
      refl,
      rw
          (accept_mids-Behind size m ms 0 (evict size (seen ++ m ∷ [])) some_ b
            (omega (arith, few')))
          refl,
    )
