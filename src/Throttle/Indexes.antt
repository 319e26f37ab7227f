-- ===== src/Throttle/Indexes.antt =====
-- crates/caelix-core/src/throttle.rs: the heap and the queue, pushed to and rebuilt.
use caelix.Prelude.{
  ℕ, suc, ◌≤◌, ◌≡◌, refl, sym, ap, subst, ◌∙◌, inl, inr, String, true, false, List, [], ◌∷◌, leb,
  Bool-cases, if◌then◌else◌, length, arith, In, All,
}
use caelix.Throttle.{
  MemoryBucket, Expiration, Buckets, Queue, pops_before, push, expiration_of, heap_of,
  insert_sorted, queue_of,
}
use caelix.Maps.{In-get}
use caelix.Throttle.Expiry.{Sorted, Covers}
use caelix.Throttle.Eviction.{Queued}

pops_before-le : (a b : Expiration) → pops_before a b ≡ true → a.expires_at ≤ b.expires_at
pops_before-le a b h = ground arith

pops_after-le : (a b : Expiration) → pops_before a b ≡ false → b.expires_at ≤ a.expires_at
pops_after-le a b h = ground arith

pub In-push_self : (e : Expiration) (es : List Expiration) → In e (push e es)
In-push_self e [] = inl refl
In-push_self e (f ∷ fs) = elim (Bool-cases (pops_before e f)) [
  | inl b ↦ subst (λ x. In e (if x then e ∷ f ∷ fs else f ∷ push e fs)) (sym b) (inl refl)
  | inr b ↦
      subst (λ x. In e (if x then e ∷ f ∷ fs else f ∷ push e fs)) (sym b) (inr (In-push_self e fs))
]

pub In-push : (e g : Expiration) (es : List Expiration) → In g es → In g (push e es)
In-push e g [] i = elim i [ ]
In-push e g (f ∷ fs) i = elim (Bool-cases (pops_before e f)) [
  | inl b ↦ subst (λ x. In g (if x then e ∷ f ∷ fs else f ∷ push e fs)) (sym b) (inr i)
  | inr b ↦
      subst (λ x. In g (if x then e ∷ f ∷ fs else f ∷ push e fs)) (sym b)
        (elim i [ inl top ↦ inl top | inr later ↦ inr (In-push e g fs later) ])
]

All-push :
    (P : Expiration → Type 0) (e : Expiration) (es : List Expiration)
    → P e
    → All P es
    → All P (push e es)
All-push P e [] p h = (p, tt)
All-push P e (f ∷ fs) p (q, h) = elim (Bool-cases (pops_before e f)) [
  | inl b ↦ subst (λ x. All P (if x then e ∷ f ∷ fs else f ∷ push e fs)) (sym b) (p, (q, h))
  | inr b ↦
      subst (λ x. All P (if x then e ∷ f ∷ fs else f ∷ push e fs)) (sym b) (q, All-push P e fs p h)
]

All-le :
    (m n : ℕ) (es : List Expiration)
    → m ≤ n
    → All (λ f. n ≤ f.expires_at) es
    → All (λ f. m ≤ f.expires_at) es
All-le m n [] l h = tt
All-le m n (e ∷ es) l (p, h) = (omega arith, All-le m n es l h)

pub Sorted-push : (e : Expiration) (es : List Expiration) → Sorted es → Sorted (push e es)
Sorted-push e [] s = (tt, tt)
Sorted-push e (f ∷ fs) (first, s) = elim (Bool-cases (pops_before e f)) [
  | inl b ↦
      let le = pops_before-le e f b in
      subst (λ x. Sorted (if x then e ∷ f ∷ fs else f ∷ push e fs)) (sym b)
        ((le, All-le e.expires_at f.expires_at fs le first), (first, s))
  | inr b ↦
      subst (λ x. Sorted (if x then e ∷ f ∷ fs else f ∷ push e fs)) (sym b)
        (
          All-push (λ g. f.expires_at ≤ g.expires_at) e fs (pops_after-le e f b) first,
          Sorted-push e fs s,
        )
]

pub length-push : (e : Expiration) (es : List Expiration) → length (push e es) ≡ suc (length es)
length-push e [] = refl
length-push e (f ∷ fs) = elim (Bool-cases (pops_before e f)) [
  | inl b ↦
      subst (λ x. length (if x then e ∷ f ∷ fs else f ∷ push e fs) ≡ suc (suc (length fs))) (sym b)
        refl
  | inr b ↦
      subst (λ x. length (if x then e ∷ f ∷ fs else f ∷ push e fs) ≡ suc (suc (length fs))) (sym b)
        (ap suc (length-push e fs))
]

In-heap_of :
    (bs : Buckets) (k : String) (b : MemoryBucket)
    → In (k, b) bs
    → In (expiration_of k b) (heap_of bs)
In-heap_of [] k b i = elim i [ ]
In-heap_of ((j, c) ∷ bs) k b (inl top) =
    subst (λ e. In e (push (expiration_of j c) (heap_of bs)))
      (ap (λ p. expiration_of p.0 p.1) (sym top)) (In-push_self (expiration_of j c) (heap_of bs))
In-heap_of ((j, c) ∷ bs) k b (inr later) =
    In-push (expiration_of j c) (expiration_of k b) (heap_of bs) (In-heap_of bs k b later)

pub heap_of-Covers : (bs : Buckets) → Covers (heap_of bs) bs
heap_of-Covers bs k b e = In-heap_of bs k b (In-get bs k b e)

pub heap_of-Sorted : (bs : Buckets) → Sorted (heap_of bs)
heap_of-Sorted [] = tt
heap_of-Sorted ((k, b) ∷ bs) = Sorted-push (expiration_of k b) (heap_of bs) (heap_of-Sorted bs)

pub length-heap_of : (bs : Buckets) → length (heap_of bs) ≡ length bs
length-heap_of [] = refl
length-heap_of ((k, b) ∷ bs) =
    length-push (expiration_of k b) (heap_of bs) ∙ ap suc (length-heap_of bs)

In-insert_sorted_self : (p : ℕ × String) (q : Queue) → In p (insert_sorted p q)
In-insert_sorted_self p [] = inl refl
In-insert_sorted_self p (x ∷ xs) = elim (Bool-cases (leb p.0 x.0)) [
  | inl b ↦ subst (λ t. In p (if t then p ∷ x ∷ xs else x ∷ insert_sorted p xs)) (sym b) (inl refl)
  | inr b ↦
      subst (λ t. In p (if t then p ∷ x ∷ xs else x ∷ insert_sorted p xs)) (sym b)
        (inr (In-insert_sorted_self p xs))
]

In-insert_sorted : (p r : ℕ × String) (q : Queue) → In r q → In r (insert_sorted p q)
In-insert_sorted p r [] i = elim i [ ]
In-insert_sorted p r (x ∷ xs) i = elim (Bool-cases (leb p.0 x.0)) [
  | inl b ↦ subst (λ t. In r (if t then p ∷ x ∷ xs else x ∷ insert_sorted p xs)) (sym b) (inr i)
  | inr b ↦
      subst (λ t. In r (if t then p ∷ x ∷ xs else x ∷ insert_sorted p xs)) (sym b)
        (elim i [ inl top ↦ inl top | inr later ↦ inr (In-insert_sorted p r xs later) ])
]

length-insert_sorted : (p : ℕ × String) (q : Queue) → length (insert_sorted p q) ≡ suc (length q)
length-insert_sorted p [] = refl
length-insert_sorted p (x ∷ xs) = elim (Bool-cases (leb p.0 x.0)) [
  | inl b ↦
      subst (λ t. length (if t then p ∷ x ∷ xs else x ∷ insert_sorted p xs) ≡ suc (suc (length xs)))
        (sym b) refl
  | inr b ↦
      subst (λ t. length (if t then p ∷ x ∷ xs else x ∷ insert_sorted p xs) ≡ suc (suc (length xs)))
        (sym b) (ap suc (length-insert_sorted p xs))
]

In-queue_of :
    (bs : Buckets) (k : String) (b : MemoryBucket)
    → In (k, b) bs
    → In (b.generation, k) (queue_of bs)
In-queue_of [] k b i = elim i [ ]
In-queue_of ((j, c) ∷ bs) k b (inl top) =
    subst (λ e. In e (insert_sorted (c.generation, j) (queue_of bs)))
      (ap (λ p. (p.1.generation, p.0)) (sym top))
      (In-insert_sorted_self (c.generation, j) (queue_of bs))
In-queue_of ((j, c) ∷ bs) k b (inr later) =
    In-insert_sorted (c.generation, j) (b.generation, k) (queue_of bs) (In-queue_of bs k b later)

pub queue_of-Queued : (bs : Buckets) → Queued (queue_of bs) bs
queue_of-Queued bs k b e = In-queue_of bs k b (In-get bs k b e)

pub length-queue_of : (bs : Buckets) → length (queue_of bs) ≡ length bs
length-queue_of [] = refl
length-queue_of ((k, b) ∷ bs) =
    length-insert_sorted (b.generation, k) (queue_of bs) ∙ ap suc (length-queue_of bs)
