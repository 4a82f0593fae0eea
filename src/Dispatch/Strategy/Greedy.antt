-- ===== src/Dispatch/Strategy/Greedy.antt =====
-- Which pile the local strategy of dispatch.service.ts chooses for an order.
use charging_station_system.Prelude.{
  ◌≡◌, refl, sym, subst, ◌∙◌, true, false, Option, none, some, List, [], ◌∷◌, arith, All, is_gt,
  filter_by, least, least-All, OnSome, All-filter_by-passes, filter_by-All, All-of-filter_by,
  lesser, head?-sort_by, inl, inr, Bool-cases,
}
use charging_station_system.Float.{Float, IsOrdered}
use charging_station_system.Station.{SchedulerOrder, SchedulerPile}
use charging_station_system.Dispatch.Strategy.{
  not_faulty, projected_finish, compare_piles, choose_pile,
}

module _ {F : Type 0} ⦃fl : Float F⦄ (laws : IsOrdered F) (o : SchedulerOrder F) where
  open laws use {asymmetric, not_less_trans}

  abbrev finish : SchedulerPile F → F
  finish = projected_finish o

  abbrev IsNumber : SchedulerPile F → Type 0
  IsNumber p = fl.at_least (finish p) (finish p) ≡ true

  -- No pile of the list would finish the order before this one.
  abbrev Best : SchedulerPile F → List (SchedulerPile F) → Type 0
  Best p = All (λ x. fl.less (finish x) (finish p) ≡ false)

  not_less_self : (a : F) → fl.less a a ≡ false
  not_less_self a = ground (arith, asymmetric a a)

  kept :
      (x y : SchedulerPile F)
      → is_gt (compare_piles o x y) ≡ false
      → fl.less (finish y) (finish x) ≡ false
  unfolding compare_piles
  kept x y h = ground (arith, asymmetric (finish y) (finish x))

  passed :
      (x y : SchedulerPile F)
      → is_gt (compare_piles o x y) ≡ true
      → fl.less (finish x) (finish y) ≡ false
  unfolding compare_piles
  passed x y h = ground (arith, asymmetric (finish x) (finish y))

  Best-trans :
      (x y : SchedulerPile F) (ps : List (SchedulerPile F))
      → IsNumber y
      → fl.less (finish y) (finish x) ≡ false
      → Best y ps
      → Best x ps
  Best-trans x y [] n h b = tt
  Best-trans x y (p ∷ ps) n h (b, bs) =
      (not_less_trans (finish x) (finish y) (finish p) n b h, Best-trans x y ps n h bs)

  BestOf : Option (SchedulerPile F) → List (SchedulerPile F) → Type 0
  BestOf none ps = (p : SchedulerPile F) → Best p ps
  BestOf (some p) ps = Best p ps × IsNumber p

  lesser-BestOf :
      (x : SchedulerPile F) (y : Option (SchedulerPile F)) (ps : List (SchedulerPile F))
      → IsNumber x
      → BestOf y ps
      → BestOf (some (lesser (compare_piles o) x y)) (x ∷ ps)
  unfolding BestOf
  lesser-BestOf x none ps n b = ((not_less_self (finish x), b x), n)
  lesser-BestOf x (some y) ps n (b, ny) = elim (Bool-cases (is_gt (compare_piles o x y))) [
    | inl gt ↦
        let chosen : y ≡ lesser (compare_piles o) x (some y) = rw gt refl in
        subst (λ p. Best p (x ∷ ps) × IsNumber p) chosen ((passed x y gt, b), ny)
    | inr le ↦
        let chosen : x ≡ lesser (compare_piles o) x (some y) = rw le refl in
        subst (λ p. Best p (x ∷ ps) × IsNumber p) chosen
          ((not_less_self (finish x), Best-trans x y ps ny (kept x y le) b), n)
  ]

  least-BestOf :
      (ps : List (SchedulerPile F)) → All IsNumber ps → BestOf (least (compare_piles o) ps) ps
  unfolding BestOf
  least-BestOf [] n = λ p. tt
  least-BestOf (x ∷ xs) (n, ns) =
      lesser-BestOf x (least (compare_piles o) xs) xs n (least-BestOf xs ns)

  -- The pile that the local strategy chooses for an order works, and no other working pile is
  -- projected to finish the order before it, where the projections are numbers.
  pub choose_pile_best :
      (piles : List (SchedulerPile F)) (p : SchedulerPile F)
      → All IsNumber piles
      → choose_pile o piles ≡ some p
      → (not_faulty p ≡ true)
        × All
            (λ x.
              not_faulty x ≡ true → fl.less (projected_finish o x) (projected_finish o p) ≡ false)
            piles
  unfolding choose_pile BestOf
  choose_pile_best piles p n e =
      let candidates = filter_by not_faulty piles in
      let chosen : least (compare_piles o) candidates ≡ some p =
        sym (head?-sort_by (compare_piles o) candidates) ∙ e in
      let works =
        least-All (compare_piles o) (λ x. not_faulty x ≡ true) candidates
          (All-filter_by-passes not_faulty piles) in
      let best = least-BestOf candidates (filter_by-All not_faulty IsNumber piles n) in
      (
        subst (OnSome (λ x. not_faulty x ≡ true)) chosen works,
        All-of-filter_by not_faulty _ piles (subst (λ q. BestOf q candidates) chosen best).0,
      )
