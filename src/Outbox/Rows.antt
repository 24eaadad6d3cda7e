-- ===== src/Outbox/Rows.antt =====
-- Finding a row of the outbox in a table whose rows are changed one by one.
use zangpu.Base.{
  if-true, if-false, ℕ, ◌≡◌, refl, sym, ap, ◌∙◌, List, [], ◌∷◌, none, some, map, Bool-cases, ◌⊎◌,
  inl, inr,
}
use zangpu.Signing.Canonical.{same_text}
use zangpu.Signing.Genuine.{same_text-eq, same_text_refl}
use zangpu.Outbox.{Text, ControlOutbox, find_item, change_item, change_at}
use zangpu.Outbox.Claim.{WorkerConfig, is_chosen, claim_item}

pub claim_item-id :
    (w : WorkerConfig) (now : ℕ) (chosen : List Text) (item : ControlOutbox)
    → (claim_item w now chosen item).id ≡ item.id
claim_item-id w now chosen item = elim (Bool-cases (is_chosen w now chosen item)) [
  | inl h ↦ rw h refl
  | inr h ↦ rw h refl
]

-- A found row has the id.
pub find_item-id :
    (id : Text) (items : List ControlOutbox) (item : ControlOutbox)
    → find_item id items ≡ some item
    → item.id ≡ id
unfolding find_item
find_item-id id [] item h = cc
find_item-id id (next ∷ items) item h = elim (Bool-cases (same_text next.id id)) [
  | inl e ↦
      let found : some next ≡ some item = sym (if-true _ _ (find_item id items) e) ∙ h in
      let same : next ≡ item = cc in ap (λ x. x.id) (sym same) ∙ same_text-eq _ _ e
  | inr e ↦ find_item-id id items item (sym (if-false _ (some next) _ e) ∙ h)
]

-- A row of a table whose rows are changed one by one.
pub find_item-map :
    (change : ControlOutbox → ControlOutbox) (id : Text) (items : List ControlOutbox)
    (item : ControlOutbox)
    → ((one : ControlOutbox) → (change one).id ≡ one.id)
    → find_item id items ≡ some item
    → find_item id (map change items) ≡ some (change item)
unfolding find_item
find_item-map change id [] item h hi = cc
find_item-map change id (next ∷ items) item h hi = elim (Bool-cases (same_text next.id id)) [
  | inl e ↦
      let found : some next ≡ some item = sym (if-true _ _ (find_item id items) e) ∙ hi in
      let same : next ≡ item = cc in
      if-true _ _ (find_item id (map change items)) (ap (λ i. same_text i id) (h next) ∙ e)
      ∙ ap (λ x. some (change x)) same
  | inr e ↦
      rw (h next, e) (find_item-map change id items item h (sym (if-false _ (some next) _ e) ∙ hi))
]

pub find_item-map-none :
    (change : ControlOutbox → ControlOutbox) (id : Text) (items : List ControlOutbox)
    → ((one : ControlOutbox) → (change one).id ≡ one.id)
    → find_item id items ≡ none
    → find_item id (map change items) ≡ none
unfolding find_item
find_item-map-none change id [] h hi = refl
find_item-map-none change id (next ∷ items) h hi = elim (Bool-cases (same_text next.id id)) [
  | inl e ↦ let found : some next ≡ none = sym (if-true _ _ (find_item id items) e) ∙ hi in cc
  | inr e ↦
      rw (h next, e) (find_item-map-none change id items h (sym (if-false _ (some next) _ e) ∙ hi))
]

pub change_at-id :
    (id : Text) (change : ControlOutbox → ControlOutbox)
    → ((one : ControlOutbox) → (change one).id ≡ one.id)
    → (one : ControlOutbox) → (change_at id change one).id ≡ one.id
change_at-id id change h one = elim (Bool-cases (same_text one.id id)) [
  | inl e ↦ rw e (h one)
  | inr e ↦ rw e refl
]

-- Every row stays or is changed.
pub change_item-cases :
    (id : Text) (change : ControlOutbox → ControlOutbox) (items : List ControlOutbox)
    → ((one : ControlOutbox) → (change one).id ≡ one.id)
    → (other : Text) (a : ControlOutbox) → find_item other items ≡ some a
    → (b : ControlOutbox) × (find_item other (change_item id change items) ≡ some b)
      × ((b ≡ a) ⊎ (b ≡ change a))
unfolding change_item
change_item-cases id change items hc other a ha =
    let found = find_item-map (change_at id change) other items a (change_at-id id change hc) ha in
    elim (Bool-cases (same_text a.id id)) [
      | inl e ↦ (change a, found ∙ ap some (if-true _ _ _ e), inr refl)
      | inr e ↦ (a, found ∙ ap some (if-false _ _ _ e), inl refl)
    ]

-- The row with the id is changed.
pub change_item-found :
    (id : Text) (change : ControlOutbox → ControlOutbox) (items : List ControlOutbox)
    (item : ControlOutbox)
    → ((one : ControlOutbox) → (change one).id ≡ one.id)
    → find_item id items ≡ some item
    → find_item id (change_item id change items) ≡ some (change item)
unfolding change_item
change_item-found id change items item hc hi =
    let found = find_item-map (change_at id change) id items item (change_at-id id change hc) hi in
    let own = ap (λ i. same_text i id) (find_item-id id items item hi) ∙ same_text_refl id in
    found ∙ ap some (if-true _ _ _ own)

pub change_item-none :
    (id : Text) (change : ControlOutbox → ControlOutbox) (items : List ControlOutbox) (other : Text)
    → ((one : ControlOutbox) → (change one).id ≡ one.id)
    → find_item other items ≡ none
    → find_item other (change_item id change items) ≡ none
unfolding change_item
change_item-none id change items other hc h =
    find_item-map-none (change_at id change) other items (change_at-id id change hc) h
