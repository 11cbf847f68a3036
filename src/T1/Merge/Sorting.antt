-- ===== src/T1/Merge/Sorting.antt =====
-- Sorting entries of different identities puts them in ascending order and keeps the lookups.
use vmem_kv.Prelude.{
  ℕ, ◌≡◌, ◌≢◌, refl, sym, ap, ◌∙◌, true, false, Bool-cases, inl, inr, some, List, [], ◌∷◌, All,
  if◌then◌else◌,
}
use vmem_kv.Bytes.Compare.{Sign, less, same, greater, is_less}
use vmem_kv.Bytes.Compare.Laws.{flip}
use vmem_kv.T1.Entry.{EntrySnapshot, answers, entry_less}
use vmem_kv.T1.Entry.Order.{order, order-flip, entry_less-order, answers-both}
use vmem_kv.T1.Merge.{insert_entry, sort_entries}
use vmem_kv.T1.Merge.Plain.{Ascending, Below, find_entry, above}

abbrev pub Apart : EntrySnapshot → EntrySnapshot → Type 0
Apart a b = order a b ≢ same

-- No identity twice.
abbrev pub Distinct : List EntrySnapshot → Type 0
Distinct [] = Unit
Distinct (x ∷ xs) = All (Apart x) xs × Distinct xs

is_less-true : (s : Sign) → is_less s ≡ true → s ≡ less
is_less-true less h = refl
is_less-true same h = cc
is_less-true greater h = cc

not_less : (s : Sign) → is_less s ≡ false → flip s ≢ same → flip s ≡ less
not_less less h n = cc
not_less same h n = absurd (n refl)
not_less greater h n = refl

module _ (e x : EntrySnapshot) (xs : List EntrySnapshot) where
  insert_entry-after :
      entry_less x.key x.hash e.key e.hash ≡ true → insert_entry e (x ∷ xs) ≡ x ∷ insert_entry e xs
  unfolding insert_entry
  insert_entry-after h = rw h refl

  insert_entry-here :
      entry_less x.key x.hash e.key e.hash ≡ false → insert_entry e (x ∷ xs) ≡ e ∷ x ∷ xs
  unfolding insert_entry
  insert_entry-here h = rw h refl

pub All-insert_entry {ℓ} :
    (P : EntrySnapshot → Type ℓ) (e : EntrySnapshot) (xs : List EntrySnapshot)
    → P e
    → All P xs
    → All P (insert_entry e xs)
unfolding insert_entry
All-insert_entry P e [] p q = (p, tt)
All-insert_entry P e (x ∷ xs) p q = elim (Bool-cases (entry_less x.key x.hash e.key e.hash)) [
  | inl h ↦ rw (insert_entry-after e x xs h) (q.0, All-insert_entry P e xs p q.1)
  | inr h ↦ rw (insert_entry-here e x xs h) (p, q)
]

pub All-sort_entries {ℓ} :
    (P : EntrySnapshot → Type ℓ) (xs : List EntrySnapshot) → All P xs → All P (sort_entries xs)
unfolding sort_entries
All-sort_entries P [] h = tt
All-sort_entries P (x ∷ xs) h =
    All-insert_entry P x (sort_entries xs) h.0 (All-sort_entries P xs h.1)

Ascending-insert_entry :
    (e : EntrySnapshot) (xs : List EntrySnapshot)
    → All (Apart e) xs
    → Ascending xs
    → Ascending (insert_entry e xs)
unfolding insert_entry
Ascending-insert_entry e [] p q = (tt, tt)
Ascending-insert_entry e (x ∷ xs) p q = elim (Bool-cases (entry_less x.key x.hash e.key e.hash)) [
  | inl h ↦
      let below : order x e ≡ less = is_less-true (order x e) (sym (entry_less-order x e) ∙ h) in
      rw (insert_entry-after e x xs h)
        (All-insert_entry (Below x) e xs below q.0, Ascending-insert_entry e xs p.1 q.1)
  | inr h ↦
      let turned = order-flip x e in
      let below : order e x ≡ less =
        turned ∙ not_less (order x e) (sym (entry_less-order x e) ∙ h) (λ s. p.0 (turned ∙ s)) in
      rw (insert_entry-here e x xs h) ((below, above e x xs below q.0), q)
]

pub Ascending-sort_entries : (xs : List EntrySnapshot) → Distinct xs → Ascending (sort_entries xs)
unfolding sort_entries
Ascending-sort_entries [] h = tt
Ascending-sort_entries (x ∷ xs) h =
    Ascending-insert_entry x (sort_entries xs) (All-sort_entries (Apart x) xs h.0)
      (Ascending-sort_entries xs h.1)

insert_entry-nil : (e : EntrySnapshot) → insert_entry e [] ≡ e ∷ []
unfolding insert_entry
insert_entry-nil e = refl

find_entry-insert_entry :
    (prefix : List ℕ) (hash : ℕ) (e : EntrySnapshot) (xs : List EntrySnapshot)
    → All (Apart e) xs
    → find_entry prefix hash (insert_entry e xs) ≡ find_entry prefix hash (e ∷ xs)
unfolding find_entry
find_entry-insert_entry prefix hash e [] p = ap (find_entry prefix hash) (insert_entry-nil e)
find_entry-insert_entry prefix hash e (x ∷ xs) p =
    let ih = find_entry-insert_entry prefix hash e xs p.1 in
    elim (Bool-cases (entry_less x.key x.hash e.key e.hash)) [
      | inl h ↦ rw (insert_entry-after e x xs h) (elim (Bool-cases (answers prefix hash x)) [
        | inl ax ↦ elim (Bool-cases (answers prefix hash e)) [
          | inl ae ↦ absurd (p.0 (answers-both prefix hash e x ae ax))
          | inr ae ↦ rw (ax, ae) refl
        ]
        | inr ax ↦ rw ax ih
      ])
      | inr h ↦ rw (insert_entry-here e x xs h) refl
    ]

pub find_entry-sort_entries :
    (prefix : List ℕ) (hash : ℕ) (xs : List EntrySnapshot)
    → Distinct xs
    → find_entry prefix hash (sort_entries xs) ≡ find_entry prefix hash xs
unfolding sort_entries find_entry
find_entry-sort_entries prefix hash [] h = refl
find_entry-sort_entries prefix hash (x ∷ xs) h =
    find_entry-insert_entry prefix hash x (sort_entries xs) (All-sort_entries (Apart x) xs h.0)
    ∙ ap (λ r. if answers prefix hash x then some x else r)
        (find_entry-sort_entries prefix hash xs h.1)
