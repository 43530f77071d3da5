-- ===== src/Extract/Breakpoints/Fields.antt =====
-- The fields of a breakpoint and of a watchpoint against the entries of the tree.
use libmigdb.Base.{codes, starts, str_eq, true, none, some, inl, inr, ◌≡◌, refl}
use libmigdb.World.{World, ret, Plenty, mi_calloc-Plenty}
use libmigdb.Tree.{Results, t_const, t_tuple, t_list, no_results, result}
use libmigdb.Parse.Print.{AreResults}
use libmigdb.Extract.{Libc, walk, pick, is_key}
use libmigdb.Extract.Breakpoints.{
  Bkpt, mi_alloc_bkpt, bkp_type, bkp_disp, bkpt_step, mi_get_bkpt, WpMode, Wp, mi_alloc_wp, wp_step,
  mi_get_wp,
}

-- Each field by itself: what the last entry of its name says.
abbrev pub bkpt_of : Libc → Results → Bkpt → Bkpt
bkpt_of libc rs b = record b {
  number = pick libc.atoi (codes "number") b.number rs;
  type = pick bkp_type (codes "type") b.type rs;
  disp = pick bkp_disp (codes "disp") b.disp rs;
  enabled = pick (starts b'y') (codes "enabled") b.enabled rs;
  addr = pick libc.strtoul (codes "addr") b.addr rs;
  func = pick some (codes "func") b.func rs;
  file = pick some (codes "file") b.file rs;
  line = pick libc.atoi (codes "line") b.line rs;
  times = pick libc.atoi (codes "times") b.times rs;
  ignore = pick libc.atoi (codes "ignore") b.ignore rs;
  cond = pick some (codes "cond") b.cond rs;
}

abbrev pub wp_of : Libc → Results → Wp → Wp
wp_of libc rs wp = record wp {
  number = pick libc.atoi (codes "number") wp.number rs;
  exp = pick some (codes "exp") wp.exp rs;
  enabled = pick (λ _. true) (codes "number") wp.enabled rs;
}

module _ (libc : Libc) where
  walk-bkpt_step :
      (rs : Results) (b : Bkpt) (w : World)
      → AreResults rs
      → walk (bkpt_step libc) rs b w ≡ ret (bkpt_of libc rs b) w
  unfolding walk bkpt_step pick str_eq AreResults
  walk-bkpt_step no_results b w n = refl
  walk-bkpt_step (result none v rs) b w n = absurd n.0
  walk-bkpt_step (result (some name) (t_const none) rs) b w n = absurd n.1
  walk-bkpt_step (result (some name) (t_tuple xs) rs) b w n = walk-bkpt_step rs b w n.2
  walk-bkpt_step (result (some name) (t_list xs) rs) b w n = walk-bkpt_step rs b w n.2
  walk-bkpt_step (result (some name) (t_const (some s)) rs) b w n =
      elim (is_key name (codes "number")) [
        | inl e ↦ rw e (walk-bkpt_step rs (record b { number = libc.atoi s }) w n.2)
        | inr e₁ ↦ elim (is_key name (codes "type")) [
          | inl e ↦ rw e (walk-bkpt_step rs (record b { type = bkp_type s }) w n.2)
          | inr e₂ ↦ elim (is_key name (codes "disp")) [
            | inl e ↦ rw e (walk-bkpt_step rs (record b { disp = bkp_disp s }) w n.2)
            | inr e₃ ↦ elim (is_key name (codes "enabled")) [
              | inl e ↦ rw e (walk-bkpt_step rs (record b { enabled = starts b'y' s }) w n.2)
              | inr e₄ ↦ elim (is_key name (codes "addr")) [
                | inl e ↦ rw e (walk-bkpt_step rs (record b { addr = libc.strtoul s }) w n.2)
                | inr e₅ ↦ elim (is_key name (codes "func")) [
                  | inl e ↦ rw e (walk-bkpt_step rs (record b { func = some s }) w n.2)
                  | inr e₆ ↦ elim (is_key name (codes "file")) [
                    | inl e ↦ rw e (walk-bkpt_step rs (record b { file = some s }) w n.2)
                    | inr e₇ ↦ elim (is_key name (codes "line")) [
                      | inl e ↦ rw e (walk-bkpt_step rs (record b { line = libc.atoi s }) w n.2)
                      | inr e₈ ↦ elim (is_key name (codes "times")) [
                        | inl e ↦ rw e (walk-bkpt_step rs (record b { times = libc.atoi s }) w n.2)
                        | inr e₉ ↦ elim (is_key name (codes "ignore")) [
                          | inl e ↦
                              rw e (walk-bkpt_step rs (record b { ignore = libc.atoi s }) w n.2)
                          | inr e₁₀ ↦ elim (is_key name (codes "cond")) [
                            | inl e ↦ rw e (walk-bkpt_step rs (record b { cond = some s }) w n.2)
                            | inr e₁₁ ↦
                                rw (e₁, e₂, e₃, e₄, e₅, e₆, e₇, e₈, e₉, e₁₀, e₁₁)
                                  (walk-bkpt_step rs b w n.2)
                          ]
                        ]
                      ]
                    ]
                  ]
                ]
              ]
            ]
          ]
        ]
      ]

  -- With memory to spare, the breakpoint that is read from named results, in any order and among any
  -- others, has in each field what the last string of the field's name says, and the initial value
  -- where there is none.
  pub mi_get_bkpt-bkpt_of :
      (rs : Results) (w : World)
      → AreResults rs
      → Plenty w
      → mi_get_bkpt libc rs w ≡ ret (some (bkpt_of libc rs mi_alloc_bkpt)) w
  unfolding mi_get_bkpt
  mi_get_bkpt-bkpt_of rs w n p = rw (mi_calloc-Plenty w p, walk-bkpt_step rs mi_alloc_bkpt w n)

  walk-wp_step :
      (rs : Results) (wp : Wp) (w : World)
      → AreResults rs
      → walk (wp_step libc) rs wp w ≡ ret (wp_of libc rs wp) w
  unfolding walk wp_step pick str_eq AreResults
  walk-wp_step no_results wp w n = refl
  walk-wp_step (result none v rs) wp w n = absurd n.0
  walk-wp_step (result (some name) (t_const none) rs) wp w n = absurd n.1
  walk-wp_step (result (some name) (t_tuple xs) rs) wp w n = walk-wp_step rs wp w n.2
  walk-wp_step (result (some name) (t_list xs) rs) wp w n = walk-wp_step rs wp w n.2
  walk-wp_step (result (some name) (t_const (some s)) rs) wp w n =
      elim (is_key name (codes "number")) [
        | inl e ↦ rw e (walk-wp_step rs (record wp { number = libc.atoi s; enabled = true }) w n.2)
        | inr e₁ ↦ elim (is_key name (codes "exp")) [
          | inl e ↦ rw e (walk-wp_step rs (record wp { exp = some s }) w n.2)
          | inr e₂ ↦ rw (e₁, e₂) (walk-wp_step rs wp w n.2)
        ]
      ]

  -- With memory to spare, the watchpoint that is read from named results has the number and the
  -- expression of the last strings of these names, is enabled if there is a number, and has the mode
  -- that it is given.
  pub mi_get_wp-wp_of :
      (rs : Results) (m : WpMode) (w : World)
      → AreResults rs
      → Plenty w
      → mi_get_wp libc rs m w ≡ ret (some (wp_of libc rs (record mi_alloc_wp { mode = m }))) w
  unfolding mi_get_wp
  mi_get_wp-wp_of rs m w n p =
      rw (mi_calloc-Plenty w p, walk-wp_step rs (record mi_alloc_wp { mode = m }) w n)
