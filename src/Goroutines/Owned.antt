-- ===== src/Goroutines/Owned.antt =====
-- What a move keeps true of the owners, of the table, and of the jobs that are being started or
-- removed.
use jobs.Prelude.{
  Text, ℕ, suc, ◌==◌, ==_iff, ◌<◌, lookup, trim_space, none, some, ◌≡◌, ◌≢◌, ◌⊎◌, inl, inr, refl,
  sym, ◌∙◌, arith, Bool-cases, Option-cases,
}
use jobs.Goroutines.{
  Memory, Pc, idle, created, registered, granted, unlinked, cleaning, failed, cleaned, put,
}
use jobs.Goroutines.Transfers.{held, id_of}
use jobs.Goroutines.Holders.{Held}
use jobs.Goroutines.Deeds.{newborn, linked, named, IsPointed, leaving, Deed}

-- xid never gives an id twice, and its ids have no blanks at their ends.
pub record IdsAreNew (m : Memory) : Type 0 where
  pub distinct : (x y : ℕ) → x < m.next → y < m.next → id_of m x ≡ id_of m y → x ≡ y
  pub trimmed : (x : ℕ) → x < m.next → trim_space (id_of m x) ≡ id_of m x

abbrev pub Known : Memory → Text → Type 0
Known m k = (x : ℕ) × (x < m.next) × (id_of m x ≡ k)

abbrev pub IsLeaving : Memory → (ℕ → Pc) → Text → Type 0
IsLeaving m pc k = (t : ℕ) × (leaving m (pc t) ≡ some k)

pub record Owned (m : Memory) (pc : ℕ → Pc) : Type 0 where
  pub owned_known : (k : Text) → lookup k m.auth.owners ≢ none → Known m k
  pub named_known : (t : ℕ) (k : Text) → named (pc t) ≡ some k → Known m k
  pub born_below : (t x : ℕ) → newborn (pc t) ≡ some x → x < m.next
  pub born_alone : (t u x : ℕ) → newborn (pc t) ≡ some x → newborn (pc u) ≡ some x → t ≡ u
  pub born_unowned : (t x : ℕ) → newborn (pc t) ≡ some x → lookup (id_of m x) m.auth.owners ≡ none
  pub born_unnamed : (t u x : ℕ) → newborn (pc t) ≡ some x → named (pc u) ≢ some (id_of m x)
  pub linked_listed : (t x : ℕ) → linked (pc t) ≡ some x → lookup (id_of m x) m.table ≢ none
  pub owned_listed :
      (k : Text) → lookup k m.auth.owners ≢ none → (lookup k m.table ≢ none) ⊎ IsLeaving m pc k
  pub all_pointed : (t : ℕ) → IsPointed m (pc t)

pub linked-newborn : (p : Pc) (x : ℕ) → linked p ≡ some x → newborn p ≡ some x
linked-newborn (registered y c) x h = h
linked-newborn (created y c) x h = cc
linked-newborn idle x h = cc
linked-newborn (granted o) x h = cc
linked-newborn (unlinked y id) x h = cc
linked-newborn (cleaning y id) x h = cc
linked-newborn (failed y) x h = cc
linked-newborn (cleaned id) x h = cc

-- Ids that stay are the same to the handlers that hold their jobs.
pub leaving-stays :
    (m n : Memory) (p : Pc)
    → ((x : ℕ) → held p ≡ some x → id_of n x ≡ id_of m x)
    → leaving n p ≡ leaving m p
leaving-stays m n (registered y c) h = refl
leaving-stays m n (created y c) h = refl
leaving-stays m n idle h = refl
leaving-stays m n (granted o) h = refl
leaving-stays m n (unlinked y id) h = rw (h y refl) refl
leaving-stays m n (cleaning y id) h = rw (h y refl) refl
leaving-stays m n (failed y) h = rw (h y refl) refl
leaving-stays m n (cleaned id) h = refl

pub IsPointed-stays :
    (m n : Memory) (p : Pc)
    → ((x : ℕ) → held p ≡ some x → id_of n x ≡ id_of m x)
    → IsPointed m p
    → IsPointed n p
IsPointed-stays m n (registered y c) h e = tt
IsPointed-stays m n (created y c) h e = tt
IsPointed-stays m n idle h e = tt
IsPointed-stays m n (granted o) h e = tt
IsPointed-stays m n (unlinked y id) h e = h y refl ∙ e
IsPointed-stays m n (cleaning y id) h e = h y refl ∙ e
IsPointed-stays m n (failed y) h e = tt
IsPointed-stays m n (cleaned id) h e = tt

module _ {m n : Memory} {pc : ℕ → Pc} {q : Pc} (i : ℕ) (holds : Held m pc) (inv : Owned m pc)
    (news : IdsAreNew n) (d : Deed m (pc i) n q) where
  kept : (t x : ℕ) → held (pc t) ≡ some x → id_of n x ≡ id_of m x
  kept t x h = d.ids x (holds.below t x h)

  extend : (k : Text) → Known m k → Known n k
  extend k (x, b, e) = (x, ground (arith, d.grows), ground (arith, d.ids x b))

  -- Every id that the tables know after the move is that of a job made before it.
  owned_before : (k : Text) → lookup k n.auth.owners ≢ none → Known m k
  owned_before k h = elim (d.owners_from k h) [
    | inl old ↦ inv.owned_known k old
    | inr (x, l, b, e, g) ↦ (x, inv.born_below i x b, e)
  ]

  named_before : (t : ℕ) (k : Text) → named (put pc i q t) ≡ some k → Known m k
  named_before t k h = elim (Bool-cases (i == t)) [
    | inr other ↦ inv.named_known t k (ground arith)
    | inl same ↦ elim (d.named_from k (ground arith)) [
      | inl old ↦ inv.named_known i k old
      | inr owned ↦ inv.owned_known k owned
    ]
  ]

  -- A job that is being started after the move is new, or was being started by the same handler.
  born_before :
      (t x : ℕ)
      → newborn (put pc i q t) ≡ some x
      → (newborn (pc t) ≡ some x) ⊎ ((x ≡ m.next) × (n.next ≡ suc m.next) × (t ≡ i))
  born_before t x h = elim (Bool-cases (i == t)) [
    | inr other ↦ inl (ground arith)
    | inl same ↦ elim (d.newborn_from x (ground arith)).1 [
      | inl old ↦ inl (ground (arith, ==_iff i t))
      | inr (e, f) ↦ inr (e, f, ground (arith, ==_iff i t))
    ]
  ]

  new_unknown : (x : ℕ) → x ≡ m.next → n.next ≡ suc m.next → Known m (id_of n x) → ⊥
  new_unknown x e s (y, b, f) =
      ground (arith, news.distinct y x (ground arith) (ground arith) (d.ids y b ∙ f))

  born-below : (t x : ℕ) → newborn (put pc i q t) ≡ some x → x < n.next
  born-below t x h = ground (arith, born_before t x h, inv.born_below t x, d.grows)

  born-alone :
      (t u x : ℕ) → newborn (put pc i q t) ≡ some x → newborn (put pc i q u) ≡ some x → t ≡ u
  born-alone t u x g h = elim (born_before t x g) [
    | inl old ↦ elim (born_before u x h) [
      | inl too ↦ inv.born_alone t u x old too
      | inr (e, s, f) ↦ absurd (ground (arith, inv.born_below t x old))
    ]
    | inr (e, s, f) ↦ elim (born_before u x h) [
      | inl too ↦ absurd (ground (arith, inv.born_below u x too))
      | inr (e2, s2, f2) ↦ f ∙ sym f2
    ]
  ]

  born-unowned :
      (t x : ℕ) → newborn (put pc i q t) ≡ some x → lookup (id_of n x) n.auth.owners ≡ none
  born-unowned t x h = elim (Option-cases (lookup (id_of n x) n.auth.owners)) [
    | inl none_owns ↦ none_owns
    | inr (u, owner) ↦ absurd (owned (λ e. ground arith))
  ]
    where
      owned : lookup (id_of n x) n.auth.owners ≢ none → ⊥
      owned o = elim (born_before t x h) [
        | inr (e, s, f) ↦ new_unknown x e s (owned_before (id_of n x) o)
        | inl old ↦ elim (d.owners_from (id_of n x) o) [
          | inl before ↦ ground (arith, d.ids x (inv.born_below t x old), inv.born_unowned t x old)
          | inr (y, l, b, e, g) ↦ ground (
            arith,
            ==_iff i t,
            inv.born_alone i t x,
            d.ids y (inv.born_below i y b),
            news.distinct y x,
            inv.born_below t x old,
            inv.born_below i y b,
            d.grows,
          )
        ]
      ]

  born-unnamed :
      (t u x : ℕ) → newborn (put pc i q t) ≡ some x → named (put pc i q u) ≢ some (id_of n x)
  born-unnamed t u x h g = elim (born_before t x h) [
    | inr (e, s, f) ↦ new_unknown x e s (named_before u (id_of n x) g)
    | inl old ↦
        let same = d.ids x (inv.born_below t x old) in
        elim (Bool-cases (i == u)) [
          | inr other ↦ ground (arith, inv.born_unnamed t u x old)
          | inl me ↦ elim (d.named_from (id_of n x) (ground arith)) [
            | inl before ↦ ground (arith, inv.born_unnamed t i x old)
            | inr owned ↦ ground (arith, inv.born_unowned t x old)
          ]
        ]
  ]

  linked-listed : (t x : ℕ) → linked (put pc i q t) ≡ some x → lookup (id_of n x) n.table ≢ none
  linked-listed t x h = elim (Bool-cases (i == t)) [
    | inl same ↦ d.linked_from x (ground arith)
    | inr other ↦
        let l : linked (pc t) ≡ some x = ground arith in
        let b = linked-newborn (pc t) x l in
        let same = d.ids x (inv.born_below t x b) in
        elim (d.table_from (id_of n x) (λ e. inv.linked_listed t x l (ground arith))) [
          | inl still ↦ still
          | inr (c, v) ↦ absurd (ground (arith, inv.born_unnamed t i x b))
        ]
  ]

  listed-stays :
      (k : Text) → lookup k m.table ≢ none → (lookup k n.table ≢ none) ⊎ IsLeaving n (put pc i q) k
  listed-stays k h = elim (d.table_from k h) [
    | inl still ↦ inl still
    | inr (c, v) ↦ inr (i, ground (arith, ==_iff i i))
  ]

  IsLeaving-goes :
      (k : Text)
      → lookup k n.auth.owners ≢ none
      → IsLeaving m pc k
      → (lookup k n.table ≢ none) ⊎ IsLeaving n (put pc i q) k
  IsLeaving-goes k o (t, v) = elim (Bool-cases (i == t)) [
    | inr other ↦ inr (t, ground (arith, leaving-stays m n (pc t) (kept t)))
    | inl same ↦ elim (d.leaving_from k (ground (arith, ==_iff i t))) [
      | inl on ↦ inr (i, ground (arith, ==_iff i i))
      | inr (inl listed) ↦ inl listed
      | inr (inr unowned) ↦ absurd (o unowned)
    ]
  ]

  owned-listed :
      (k : Text)
      → lookup k n.auth.owners ≢ none
      → (lookup k n.table ≢ none) ⊎ IsLeaving n (put pc i q) k
  owned-listed k o = elim (d.owners_from k o) [
    | inr (x, l, b, e, g) ↦ listed-stays k (λ z. inv.linked_listed i x l (ground arith))
    | inl old ↦ elim (inv.owned_listed k old) [
      | inl listed ↦ listed-stays k listed
      | inr v ↦ IsLeaving-goes k o v
    ]
  ]

  all-IsPointed : (t : ℕ) → IsPointed n (put pc i q t)
  all-IsPointed t = elim (Bool-cases (i == t)) [
    | inl same ↦ rw same d.points
    | inr other ↦ rw other (IsPointed-stays m n (pc t) (kept t) (inv.all_pointed t))
  ]

  pub Deed-Owned : Owned n (put pc i q)
  Deed-Owned = record {
    owned_known = λ k h. extend k (owned_before k h);
    named_known = λ t k h. extend k (named_before t k h);
    born_below = born-below;
    born_alone = born-alone;
    born_unowned = born-unowned;
    born_unnamed = born-unnamed;
    linked_listed = linked-listed;
    owned_listed = owned-listed;
    all_pointed = all-IsPointed;
  }
