-- ===== src/Llm/Alternation.antt =====
-- nan/llm/provider.py: what the merging loop of `_anthropic_messages` guarantees.
use nan_itself.Base.{
  ◌≡◌, refl, sym, ap, ◌∙◌, subst, Option, none, some, List, [], ◌∷◌, ◌++◌, map, append_assoc,
  map-append, arith, string_eq, nat_eq, last?-snoc, set_last-snoc,
}
use nan_itself.Llm.Anthropic.{
  Block, Speaker, from_user, from_assistant, Entry, merge, merge_after, merge_pair,
}

-- The loop as a function of the entry that may still grow.
abbrev grown : Entry → Entry → Entry
grown e f = record e { content = e.content ++ f.content }

abbrev joined_by : Speaker → Speaker → (together apart : List Entry) → List Entry
joined_by from_user from_user together apart = together
joined_by _ _ together apart = apart

abbrev joined : Entry → List Entry → List Entry
joined e [] = e ∷ []
joined e (f ∷ fs) =
    let together = joined (grown e f) fs in
    let apart = e ∷ joined f fs in joined_by e.role f.role together apart

-- One round of the loop, by who speaks.
round-joined :
    (acc : List Entry) (e f : Entry) (fs : List Entry)
    → (merge (acc ++ grown e f ∷ []) fs ≡ acc ++ joined (grown e f) fs)
    → (merge ((acc ++ e ∷ []) ++ f ∷ []) fs ≡ acc ++ e ∷ joined f fs)
    → (r s : Speaker)
    → merge (merge_pair r s e f (acc ++ e ∷ [])) fs
      ≡ acc ++ joined_by r s (joined (grown e f) fs) (e ∷ joined f fs)
round-joined acc e f fs together apart from_user from_user =
    ap (λ m. merge m fs) (set_last-snoc acc e (grown e f)) ∙ together
round-joined acc e f fs together apart from_user from_assistant = apart
round-joined acc e f fs together apart from_assistant from_user = apart
round-joined acc e f fs together apart from_assistant from_assistant = apart

merge-joined :
    (acc : List Entry) (e : Entry) (es : List Entry) → merge (acc ++ e ∷ []) es ≡ acc ++ joined e es
unfolding merge
merge-joined acc e [] = refl
merge-joined acc e (f ∷ fs) =
    ap (λ o. merge (merge_after o f (acc ++ e ∷ [])) fs) (last?-snoc acc e)
    ∙ round-joined acc e f fs (merge-joined acc (grown e f) fs)
        (merge-joined (acc ++ e ∷ []) f fs ∙ append_assoc acc (e ∷ []) (joined f fs)) e.role f.role

-- The merged entries.
abbrev joined_all : List Entry → List Entry
joined_all [] = []
joined_all (e ∷ es) = joined e es

merge-joined_all : (es : List Entry) → merge [] es ≡ joined_all es
unfolding merge
merge-joined_all [] = refl
merge-joined_all (e ∷ es) = merge-joined [] e es

-- Each block with the one who says it.
abbrev pub spoken : List Entry → List (Speaker × Block)
spoken [] = []
spoken (e ∷ es) = map (λ b. (e.role, b)) e.content ++ spoken es

abbrev Link : (Speaker → Speaker → Type 0) → Option Speaker → Speaker → Type 0
Link R none s = Unit
Link R (some r) s = R r s

-- Whoever speaks, and whoever speaks next, are related.
abbrev pub Chain : (Speaker → Speaker → Type 0) → Option Speaker → List Entry → Type 0
Chain R o [] = Unit
Chain R o (e ∷ es) = Link R o e.role × Chain R (some e.role) es

abbrev pub NotBothUsers : Speaker → Speaker → Type 0
NotBothUsers from_user from_user = ⊥
NotBothUsers _ _ = Unit

abbrev pub NotBothAssistants : Speaker → Speaker → Type 0
NotBothAssistants from_assistant from_assistant = ⊥
NotBothAssistants _ _ = Unit

abbrev pub Differ : Speaker → Speaker → Type 0
Differ from_user s = NotBothUsers from_user s
Differ from_assistant s = NotBothAssistants from_assistant s

abbrev Anyone : Speaker → Speaker → Type 0
Anyone _ _ = Unit

-- What is related before, if it is not two users, is related after.
module _ (Q R : Speaker → Speaker → Type 0)
    (kept : (r s : Speaker) → (¬ ((r ≡ from_user) × (s ≡ from_user))) → Q r s → R r s) where
  round-Chain :
      (o : Option Speaker) (e f : Entry) (fs : List Entry)
      → (Chain Q (some e.role) fs → Chain R o (joined (grown e f) fs))
      → (R e.role f.role → Chain R o (e ∷ joined f fs))
      → Q e.role f.role
      → Chain Q (some f.role) fs
      → (r s : Speaker) → e.role ≡ r
      → f.role ≡ s
      → Chain R o (joined_by r s (joined (grown e f) fs) (e ∷ joined f fs))
  round-Chain o e f fs together apart q c from_user from_user p p' =
      together (subst (λ r. Chain Q (some r) fs) (p' ∙ sym p) c)
  round-Chain o e f fs together apart q c from_user from_assistant p p' =
      apart (kept e.role f.role (λ (a, b). ground arith) q)
  round-Chain o e f fs together apart q c from_assistant s p p' =
      apart (kept e.role f.role (λ (a, b). ground arith) q)

  joined-Chain :
      (o : Option Speaker) (e : Entry) (es : List Entry)
      → Link R o e.role
      → Chain Q (some e.role) es
      → Chain R o (joined e es)
  joined-Chain o e [] l c = (l, tt)
  joined-Chain o e (f ∷ fs) l (q, c) =
      round-Chain o e f fs (joined-Chain o (grown e f) fs l)
        (λ r. (l, joined-Chain (some e.role) f fs r c)) q c e.role f.role refl refl

anyone : (o : Option Speaker) (es : List Entry) → Chain Anyone o es
anyone none [] = tt
anyone (some r) [] = tt
anyone none (e ∷ es) = (tt, anyone (some e.role) es)
anyone (some r) (e ∷ es) = (tt, anyone (some e.role) es)

users_kept :
    (r s : Speaker) → (¬ ((r ≡ from_user) × (s ≡ from_user))) → Anyone r s → NotBothUsers r s
users_kept from_user from_user n _ = n (refl, refl)
users_kept from_user from_assistant n _ = tt
users_kept from_assistant s n _ = tt

assistants_kept :
    (r s : Speaker) → (¬ ((r ≡ from_user) × (s ≡ from_user))) → NotBothAssistants r s → Differ r s
assistants_kept from_user from_user n _ = n (refl, refl)
assistants_kept from_user from_assistant n _ = tt
assistants_kept from_assistant s n h = h

spoken-joined : (e : Entry) (es : List Entry) → spoken (joined e es) ≡ spoken (e ∷ es)
spoken-joined e [] = refl
spoken-joined e (f ∷ fs) =
    by_roles e.role f.role refl refl (spoken-joined (grown e f) fs) (spoken-joined f fs)
  where
    by_roles :
        (r s : Speaker)
        → e.role ≡ r
        → f.role ≡ s
        → (spoken (joined (grown e f) fs) ≡ spoken (grown e f ∷ fs))
        → (spoken (joined f fs) ≡ spoken (f ∷ fs))
        → spoken (joined_by r s (joined (grown e f) fs) (e ∷ joined f fs)) ≡ spoken (e ∷ f ∷ fs)
    by_roles from_user from_user p q together apart =
        together
        ∙ ap (λ bs. bs ++ spoken fs) (map-append (λ b. (e.role, b)) e.content f.content)
        ∙ append_assoc (map (λ b. (e.role, b)) e.content) (map (λ b. (e.role, b)) f.content)
            (spoken fs)
        ∙ ap (λ r. map (λ b. (e.role, b)) e.content ++ (map (λ b. (r, b)) f.content ++ spoken fs))
            (p ∙ sym q)
    by_roles from_user from_assistant p q together apart =
        ap (λ bs. map (λ b. (e.role, b)) e.content ++ bs) apart
    by_roles from_assistant s p q together apart =
        ap (λ bs. map (λ b. (e.role, b)) e.content ++ bs) apart

-- The merging loop keeps every block, in order and with the one who says it, and never leaves two
-- user messages next to each other, whatever it is given.
pub merge-spoken :
    (es : List Entry) → (spoken (merge [] es) ≡ spoken es) × Chain NotBothUsers none (merge [] es)
unfolding merge
merge-spoken [] = ground (arith, merge-joined_all [])
merge-spoken (e ∷ es) =
    subst (λ m. (spoken m ≡ spoken (e ∷ es)) × Chain NotBothUsers none m)
      (sym (merge-joined [] e es))
      (
        spoken-joined e es,
        joined-Chain Anyone NotBothUsers users_kept none e es tt (anyone (some e.role) es),
      )

-- If a user begins and no two assistants follow each other, the merged entries alternate and a user
-- begins: they go on as if an assistant had spoken before.
pub merge-Differ :
    (es : List Entry)
    → Chain NotBothAssistants (some from_assistant) es
    → Chain Differ (some from_assistant) (merge [] es)
unfolding merge
merge-Differ [] c = tt
merge-Differ (e ∷ es) (l, c) =
    subst (Chain Differ (some from_assistant)) (sym (merge-joined [] e es))
      (joined-Chain NotBothAssistants Differ assistants_kept (some from_assistant) e es l c)
