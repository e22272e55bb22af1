-- ===== src/RcuList/Destructor/Nodes.antt =====
-- The first loop of `~rcu_list`.
use cs_signal.Prelude.{
  ℕ, zero, suc, ◌<◌, ◌≡◌, refl, ◌∙◌, true, false, inl, inr, Bool_cases, Option, none, some, [], ◌∷◌,
  length, arith,
}
use cs_signal.RcuList.{Ptr, RcuList, update}
use cs_signal.RcuList.Chain.{
  Cells, has, first, Chain, Distinct, Chain-update, update_same, update_other, live_node,
}
use cs_signal.RcuList.Destructor.{free_list}

module _ {ℓ} {A : Type ℓ} where
  -- The cells `xs` are freed and nothing else is.
  pub record CellsFreed (l : RcuList A) (xs : Cells A) (l' : RcuList A) : Type ℓ where
    pub rest : l' ≡ record l { nodes = l'.nodes }
    pub freed : (a : ℕ) → has a xs ≡ true → l'.nodes a ≡ none
    pub spared : (a : ℕ) → has a xs ≡ false → l'.nodes a ≡ l.nodes a

  free_list_run :
      (fuel p : ℕ) (v : A) (next back : Ptr) (l : RcuList A) (r : Option (RcuList A))
      → l.nodes p ≡ some (live_node next back v)
      → free_list fuel next (record l { nodes = update l.nodes p none }) ≡ r
      → free_list (suc fuel) (some p) l ≡ r
  unfolding free_list
  free_list_run fuel p v next back l r node run = rw node run

  pub free_list-CellsFreed :
      (fuel : ℕ) (start : Ptr) (xs : Cells A) (l : RcuList A)
      → Chain l.nodes start xs none
      → Distinct xs
      → length xs < fuel
      → (l' : RcuList A) × (free_list fuel (first xs none) l ≡ some l') × CellsFreed l xs l'
  unfolding free_list
  free_list-CellsFreed zero start xs l c d h = absurd (omega arith)
  free_list-CellsFreed (suc fuel) start [] l c d h =
      (l, refl, record { rest = refl; freed = λ a m. absurd (cc); spared = λ a m. refl })
  free_list-CellsFreed (suc fuel) start (x ∷ xs) l c d h =
      let l₁ = record l { nodes = update l.nodes x.0 none } in
      let (l', run, k) =
        free_list-CellsFreed fuel (some x.0) xs l₁ (Chain-update l.nodes x.0 none _ xs none d.0 c.1)
          d.1 (omega arith) in
      (
        l',
        free_list_run fuel x.0 x.1 (first xs none) start l (some l') c.0 run,
        record {
          rest = k.rest;
          freed = λ a m. elim (Bool_cases (has a xs)) [
            | inl e ↦ k.freed a e
            | inr e ↦
                let here : a ≡ x.0 = ground arith in
                k.spared a e ∙ rw here (update_same l.nodes x.0 none)
          ];
          spared =
              λ a m. k.spared a (ground arith) ∙ update_other l.nodes x.0 none a (ground arith);
        },
      )
