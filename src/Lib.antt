-- ===== src/Lib.antt =====
-- The allocation models of the NVDA tranched-vault repository, research/cadcad: hourly simulations
-- of a keeper that moves a portfolio between two concentrated-liquidity books and a lending arm.
--
-- The parts and how they interact:
--   * research/cadcad/allocator/allocator.py has the keeper's rules as pure functions. Allocator
--     models them: Assess (`assess_book_risk`, `decide_by_risk`), Borrow (`borrow_size`), Entry
--     (`plan_arm_entry`), Return (`plan_book_return`) and Switch (`choose_book`,
--     `decide_pool_switch`, whose sorted candidates are in Switch/Ranking).
--   * research/cadcad/allocator/lp.py has the arithmetic of positions. Lp models all of it.
--   * research/cadcad/allocator/model.py has the simulation. Model has its dictionaries as records
--     (Portfolio, Book, Arm, Cum, Params, Env) and its actions and events. Model/Books is the
--     accounting of one book, Model/Accounts that of the portfolio (`portfolio_nav`, `_mode`,
--     `_arm_caps`, `_pay_gas`, `_close_book`), Model/Funding has `_swap_deficit`,
--     `_choose_base_skew` and `_fund_book`, Model/Execute `_execute_action`, Model/Liquidate
--     `_liquidate`, Model/Policy the single actions that the keeper chooses from
--     (`_deploy_to_arms_action`, `_return_to_books_action`, `_sentinel_action`, `_recenter_action`,
--     `_surplus_action`) and Model/Decision `p_decision`. Model/Fees has `book_fee_parts` and
--     `book_fee_for_hour`, Model/Windows the rolling fee and loss signals with `_fee_il_streak`,
--     Model/Income `s_portfolio_income`, Model/Minutes `_rolling_minutes` and `_window_stats`,
--     Model/Marks `_candidate` and `p_marks`, Model/Start `_depeg_flag`, `_book_template` and the
--     portfolio of `build_initial_state`, and Model/Run the state of a run with its update blocks:
--     an hour takes the scenario's row, earns the income, marks the books, calls `p_decision`,
--     executes what it decides and then takes the value, the peak and the metrics. Model/Ledger
--     has the carry of `s_metrics`, against which the changes of the value are measured.
--   * research/cadcad/fee_allocator/model.py has a second simulation, of the weights of three pools.
--     FeeAllocator has its state and weights (`_norm`, `_next_weights`, `fee_switch_edge`), Gate
--     `_trailing_volume` and `pool_b_risk`, Hour the policies, the updates of the state and the
--     order of its blocks, and Start `build_initial_state`, `p_metrics` and `run_model`.
-- Files below a module prove things of it. Prelude has the shared names, Sequence Python's slices,
-- Number the interface of Python's numbers with their laws, and Tests concrete runs over the
-- rationals.
--
-- How the code is read:
--   * A number is a value of a type `R` with the operations of `Number`; the code's ints that it
--     mixes with floats, such as ticks, are such values too. `IsOrdered` has laws that rounding
--     respects, for naturals up to 2 ^ 53, `IsExact` those of exact arithmetic: a theorem names the
--     one that it uses. Infinity, NaN, overflow and the error on a division by zero are not
--     modelled. The functions of `math` are the record `Math`, with the sign conditions of
--     `IsPositive`.
--   * A dictionary is a record with all its keys. An in-place update is a new record, and the order
--     of updates is the code's. Messages, reasons and notes are display text and left out.
--   * `last_pull_step` is `none` for -1, and a negative `guard_rearm_delay_hours` is `none`.
--   * The count of `_fee_il_streak` is a number that `p_decision` takes, and an hour of Model/Run
--     fills it in. The candidates of `p_marks` are the list that the code reads from the state.
--   * A minute is a record, where the code keeps the fields of the minutes in parallel lists of the
--     same length.
--   * An hour of a run applies the update blocks in their order, as cadCAD does.
--   * A fee scenario has at least one row, since the code cannot read a row of an empty one.
--   * Every function here is structurally recursive, so no fuel is used.
--
-- Not modelled: in model.py the metrics that are copies of the state, and `metrics_frame`, which is
-- pandas, in both models; cadCAD itself; scenario loading, which reads files and draws random blocks;
-- the runners and dashboards, which are input and output; the contracts, the keeper scripts
-- and the web pages, which are not Python; and lib/forge-std, which is vendored.
pub mod Prelude
pub mod Sequence
pub mod Number
pub mod Allocator
pub mod Lp
pub mod Model
pub mod FeeAllocator
pub mod Tests
