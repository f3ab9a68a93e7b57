-- ===== src/Model/Ledger.antt =====
-- The carry that `s_metrics` of research/cadcad/allocator/model.py adds up, and what it says of the
-- value: what an operation adds to the value it adds to the carry.
pub mod Swap
pub mod Pockets
pub mod Gas
pub mod Fund
pub mod Actions
use nvda_tranched_arc.Prelude.{◌≡◌, refl, ◌∙◌}
use nvda_tranched_arc.Number.{Number, ◌+◌, ◌-◌, num, IsExact}
use nvda_tranched_arc.Number.Algebra.{ring}
use nvda_tranched_arc.Lp.{Math}
use nvda_tranched_arc.Model.{Cum, Portfolio}
use nvda_tranched_arc.Model.Accounts.{portfolio_nav}

module _ {R : Type 0} ⦃n : Number R⦄ where
  -- `cum_net_carry`
  unfoldable pub net_carry : Cum R → R
  net_carry cum =
      cum.fees + cum.arm_interest + cum.nvda_yield - cum.borrow_cost - cum.gas - cum.switch_cost
      - cum.swap_cost

  -- The carry after the losses of liquidations.
  abbrev pub net_income : Cum R → R
  net_income cum = net_carry cum - cum.liquidation_loss

-- Both the value and the carry change by the same amount.
pub record IsBalanced {R : Type 0} ⦃n : Number R⦄ ⦃m : Math R⦄ (q price : R)
    (pf after : Portfolio R) : Type 0 where
  pub change : R
  pub of_nav : portfolio_nav after q price ≡ portfolio_nav pf q price + change
  pub of_carry : net_income after.cum ≡ net_income pf.cum + change

module _ {R : Type 0} ⦃n : Number R⦄ ⦃m : Math R⦄ (e : IsExact R) (q price : R) where
  abbrev Balanced : Portfolio R → Portfolio R → Type 0
  Balanced = IsBalanced q price

  plus_zero : (x : R) → x ≡ x + num 0
  plus_zero x = simp (ring, e)

  join : (x y z c d : R) → y ≡ x + c → z ≡ y + d → z ≡ x + (c + d)
  join x y z c d h k = rw (k, h) (simp (ring, e))

  -- The value that no carry explains is the same.
  explain : (x y c d g : R) → y ≡ x + g → d ≡ c + g → y - d ≡ x - c
  explain x y c d g h k = rw (h, k) (simp (ring, e))

  -- The value alone is kept, where the totals are.
  pub kept :
      (pf after : Portfolio R)
      → portfolio_nav after q price ≡ portfolio_nav pf q price
      → net_income after.cum ≡ net_income pf.cum
      → Balanced pf after
  kept pf after h k = record {
    change = num 0;
    of_nav = h ∙ plus_zero (portfolio_nav pf q price);
    of_carry = k ∙ plus_zero (net_income pf.cum);
  }

  pub same : (pf : Portfolio R) → Balanced pf pf
  same pf = kept pf pf refl refl

  pub then_balanced : (a b c : Portfolio R) → Balanced a b → Balanced b c → Balanced a c
  then_balanced a b c h k = record {
    change = h.change + k.change;
    of_nav =
        join (portfolio_nav a q price) (portfolio_nav b q price) _ h.change k.change h.of_nav
          k.of_nav;
    of_carry = join (net_income a.cum) (net_income b.cum) _ h.change k.change h.of_carry k.of_carry;
  }

  -- The part of the value that the carry does not explain stays what it was.
  pub unexplained :
      (pf after : Portfolio R)
      → Balanced pf after
      → portfolio_nav after q price - net_income after.cum
        ≡ portfolio_nav pf q price - net_income pf.cum
  unexplained pf after h =
      explain (portfolio_nav pf q price) (portfolio_nav after q price) (net_income pf.cum)
        (net_income after.cum) h.change h.of_nav h.of_carry
