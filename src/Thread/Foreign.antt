-- ===== src/Thread/Foreign.antt =====
-- What a worker of another work queue posts to the same completion queue, and the labels of this one.
use dis_kverbs.Common.{
  ◌≡◌, ap, sym, subst, ◌∙◌, refl, List, [], ◌∷◌, ◌++◌, append_assoc, append-nil, map, map-append,
  Bool-cases, inl, inr, ltb, length, ◌-◌,
}
use mathlib.Core.List.{filter, filter-append}
use mathlib.Core.Logic.{if_neg}
use dis_kverbs.Kernel.{CircBuf}
use dis_kverbs.Verbs.{DisWqe, DisCq, DisWqType, WcStatus}
use dis_kverbs.Cq.{cqe_of}
use dis_kverbs.Cq.Inv.{IsValid, contents}
use dis_kverbs.Cq.Refine.{post_refines}
use dis_kverbs.Cq.Queue
use dis_kverbs.SciIf.{SciReply}
use dis_kverbs.Worker.{Consumed, consume_one}
use dis_kverbs.Worker.Complete.{Label, wqe_label, cqe_label, consume_one-IsCompleted}

-- Two equations that share what the first ends in.
pub splice {ℓ} :
    {A : Type ℓ} (a b l l' o i w o' x : List A)
    → a ++ (b ++ l) ≡ o ++ (i ++ w)
    → i ++ (w ++ l') ≡ o' ++ x
    → a ++ (b ++ (l ++ l')) ≡ (o ++ o') ++ x
splice a b l l' o i w o' x first second =
    ap (λ k. a ++ k) (sym (append_assoc b l l'))
    ∙ sym (append_assoc a (b ++ l) l')
    ∙ ap (λ k. k ++ l') first
    ∙ append_assoc o (i ++ w) l'
    ∙ ap (λ k. o ++ k) (append_assoc i w l' ∙ second)
    ∙ sym (append_assoc o o' x)

module _ {mine : Label → Type 0} (d : (l : Label) → Dec (mine l)) where
  abbrev pub select : List Label → List Label
  select l = filter {p = mine} d l

  pub spread :
      (a b l o i w : List Label)
      → a ++ (b ++ l) ≡ o ++ (i ++ w)
      → select a ++ (select b ++ select l) ≡ select o ++ (select i ++ select w)
  spread a b l o i w e =
      ap (λ k. select a ++ k) (sym (filter-append d b l))
      ∙ sym (filter-append d a (b ++ l))
      ∙ ap select e
      ∙ filter-append d o (i ++ w)
      ∙ ap (λ k. select o ++ k) (filter-append d i w)

  pub select-append :
      {A : Type 0} (f : A → Label) (xs ys : List A)
      → select (map f (xs ++ ys)) ≡ select (map f xs) ++ select (map f ys)
  select-append f xs ys = ap select (map-append f xs ys) ∙ filter-append d (map f xs) (map f ys)

  -- A label that is not mine, behind the others.
  select-foreign : (ls : List Label) (l : Label) → ¬ mine l → select (ls ++ l ∷ []) ≡ select ls
  select-foreign ls l not =
      filter-append d ls (l ∷ [])
      ∙ ap (λ k. select ls ++ k) (if_neg {C = List Label} (d l) not (l ∷ []) [])
      ∙ append-nil (select ls)

  module _ (c : CircBuf) where
    foreign_entry :
        (cq : DisCq) (w entry : DisWqe) (v : WcStatus)
        → wqe_label entry ≡ wqe_label w
        → ¬ mine (wqe_label w)
        → select (map cqe_label (Queue.push (cq.cqe_max - 1) (contents cq) (cqe_of entry v)).1)
          ≡ select (map cqe_label (contents cq))
    unfolding Queue.push cqe_of
    foreign_entry cq w entry v same not =
        elim (Bool-cases (ltb (length (contents cq)) (cq.cqe_max - 1))) [
          | inl room ↦ rw room (
              ap select (map-append cqe_label (contents cq) (cqe_of entry v ∷ []))
              ∙ select-foreign (map cqe_label (contents cq)) (wqe_label entry)
                  (subst (λ l. ¬ mine l) (sym same) not))
          | inr full ↦ rw full refl
        ]

    pub foreign_kept :
        (type : DisWqType) (cq : DisCq) (w : DisWqe) (replies : List SciReply)
        → IsValid cq
        → ¬ mine (wqe_label w)
        → let cq' = (consume_one c type cq w replies).cq in
          IsValid cq'
          × (select (map cqe_label (contents cq')) ≡ select (map cqe_label (contents cq)))
    foreign_kept type cq w replies v not =
        let k = consume_one-IsCompleted c type cq w replies in
        let (same, v', size) = post_refines c k.entry k.verdict v in
        (
          subst (λ (o : Consumed). IsValid o.cq) (sym k.posted_once) v',
          ap (λ (o : Consumed). select (map cqe_label (contents o.cq))) k.posted_once
              ∙ ap (λ q. select (map cqe_label q.1)) same
              ∙ foreign_entry cq w k.entry k.verdict k.same_label not,
        )
