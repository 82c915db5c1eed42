-- ===== src/Capability/Attenuation.antt =====
-- Attenuation never grants: the effective manifest permits no more than the parent, and no more
-- than the child asked for.
use selfconnect_runtime.Base.{
  min, String, ◌≡◌, Bool, true, Option, List, [], ◌∷◌, arith, if◌then◌else◌, string_eq, intersect,
  contains-intersect, filter, any, Result, ok, err,
}
use selfconnect_runtime.Capability.Path.{Denied, FilePath, Os, is_under, resolve_within}
use selfconnect_runtime.Capability.Manifest.{
  CapabilityManifest, ExecRule, check_tool, check_net, check_classification, check_read,
  check_write, check_exec, allows, same_rule, is_empty, roots_contained, lower_ceiling, attenuate,
}
use selfconnect_runtime.Capability.Paths.{is_under_trans}
use selfconnect_runtime.Capability.Order.{AtMost}

module _ (os : Os) where
  -- A path under some root that was kept is under some root of either list.
  under_any : FilePath → List String → Bool
  under_any p = any (λ root. is_under p (os.realpath root))

  under-kept_parent :
      (p : FilePath) (c : String) (parents : List String)
      → is_under p (os.realpath c) ≡ true
      → any (λ r. is_under (os.realpath c) (os.realpath r)) parents ≡ true
      → any (λ r. is_under p (os.realpath r)) parents ≡ true
  unfolding any
  under-kept_parent p c (r ∷ parents) h k =
      ground
        (arith, is_under_trans p (os.realpath c) (os.realpath r) h, under-kept_parent p c parents h)
  under-kept_parent p c [] h k = ground arith

  under-roots_contained_parent :
      (p : FilePath) (children parents : List String)
      → any (λ r. is_under p (os.realpath r)) (roots_contained os children parents) ≡ true
      → any (λ r. is_under p (os.realpath r)) parents ≡ true
  unfolding any roots_contained filter
  under-roots_contained_parent p (c ∷ children) parents h =
      ground (arith, under-kept_parent p c parents, under-roots_contained_parent p children parents)
  under-roots_contained_parent p [] parents h = ground arith

  under-roots_contained_child :
      (p : FilePath) (children parents : List String)
      → any (λ r. is_under p (os.realpath r)) (roots_contained os children parents) ≡ true
      → any (λ r. is_under p (os.realpath r)) children ≡ true
  unfolding any roots_contained filter
  under-roots_contained_child p (c ∷ children) parents h =
      ground (arith, under-roots_contained_child p children parents)
  under-roots_contained_child p [] parents h = ground arith

  -- The check of a path against a list of roots, as both `check_read` and `check_write` make it.
  check_roots : List String → Denied → String → Option Bool → Result Denied FilePath
  check_roots roots none_granted path windows =
      if is_empty roots then err none_granted else resolve_within os path roots windows

  check_roots_mono :
      (roots wider : List String) (e : Denied) (path : String) (windows : Option Bool)
      (p : FilePath)
      → (any (λ r. is_under (os.realpath path) (os.realpath r)) roots ≡ true
          → any (λ r. is_under (os.realpath path) (os.realpath r)) wider ≡ true)
      → check_roots roots e path windows ≡ ok p
      → check_roots wider e path windows ≡ ok p
  unfolding check_roots resolve_within any
  check_roots_mono (r ∷ roots) (s ∷ wider) e path windows p h k = ground arith
  check_roots_mono (r ∷ roots) [] e path windows p h k = ground arith
  check_roots_mono [] wider e path windows p h k = ground arith

  allows-same_rule :
      (r s : ExecRule) (binary : String) (args : List String)
      → same_rule r s ≡ true
      → allows os r binary args ≡ true
      → allows os s binary args ≡ true
  unfolding same_rule allows
  allows-same_rule r s binary args h k = ground arith

  exec-parent_of_one :
      (r : ExecRule) (rules : List ExecRule) (binary : String) (args : List String)
      → any (same_rule r) rules ≡ true
      → allows os r binary args ≡ true
      → any (λ s. allows os s binary args) rules ≡ true
  unfolding any
  exec-parent_of_one r [] binary args h k = ground arith
  exec-parent_of_one r (s ∷ rules) binary args h k =
      ground (arith, allows-same_rule r s binary args, exec-parent_of_one r rules binary args)

  exec-kept_parent :
      (rules parents : List ExecRule) (binary : String) (args : List String)
      → any (λ s. allows os s binary args) (filter (λ r. any (same_rule r) parents) rules) ≡ true
      → any (λ s. allows os s binary args) parents ≡ true
  unfolding any filter
  exec-kept_parent [] parents binary args h = ground arith
  exec-kept_parent (r ∷ rules) parents binary args h =
      ground (
        arith,
        exec-parent_of_one r parents binary args,
        exec-kept_parent rules parents binary args,
      )

  exec-kept_child :
      (rules parents : List ExecRule) (binary : String) (args : List String)
      → any (λ s. allows os s binary args) (filter (λ r. any (same_rule r) parents) rules) ≡ true
      → any (λ s. allows os s binary args) rules ≡ true
  unfolding any filter
  exec-kept_child [] parents binary args h = ground arith
  exec-kept_child (r ∷ rules) parents binary args h =
      ground (arith, exec-kept_child rules parents binary args)

  module _ (parent child eff : CapabilityManifest)
      (given : attenuate os parent child ≡ ok eff) where
    -- What `attenuate` returns, field by field.
    abbrev Parts : Type 0
    Parts =
        (eff.tools ≡ intersect child.tools parent.tools)
        × (eff.net_hosts ≡ intersect child.net_hosts parent.net_hosts)
        × (eff.fs_read_roots ≡ roots_contained os child.fs_read_roots parent.fs_read_roots)
        × (eff.fs_write_roots ≡ roots_contained os child.fs_write_roots parent.fs_write_roots)
        × (eff.exec_rules ≡ filter (λ r. any (same_rule r) parent.exec_rules) child.exec_rules)
        × (eff.max_budget_usd ≡ min child.max_budget_usd parent.max_budget_usd)
        × (lower_ceiling parent.classification_ceiling child.classification_ceiling
            ≡ ok eff.classification_ceiling)

    parts : Parts
    unfolding attenuate
    parts = ground arith

    tools_both :
        (name : String)
        → check_tool eff name ≡ ok tt
        → (check_tool parent name ≡ ok tt) × (check_tool child name ≡ ok tt)
    unfolding check_tool
    tools_both name h = ground (arith, parts, contains-intersect child.tools parent.tools name)

    hosts_both :
        (host : String)
        → check_net eff host ≡ ok tt
        → (check_net parent host ≡ ok tt) × (check_net child host ≡ ok tt)
    unfolding check_net
    hosts_both host h =
        ground (arith, parts, contains-intersect child.net_hosts parent.net_hosts host)

    exec_both :
        (binary : String) (args : List String)
        → check_exec os eff binary args ≡ ok tt
        → (check_exec os parent binary args ≡ ok tt) × (check_exec os child binary args ≡ ok tt)
    unfolding check_exec
    exec_both binary args h = ground (
      arith,
      parts,
      exec-kept_parent child.exec_rules parent.exec_rules binary args,
      exec-kept_child child.exec_rules parent.exec_rules binary args,
    )

    level_both :
        (level : String)
        → check_classification eff level ≡ ok tt
        → (check_classification parent level ≡ ok tt) × (check_classification child level ≡ ok tt)
    unfolding check_classification lower_ceiling
    level_both level h = ground (arith, parts)

    -- The parts for the paths: what either list of roots keeps lies under both.
    read_both :
        (path : String) (windows : Option Bool) (p : FilePath)
        → check_read os eff path windows ≡ ok p
        → (check_read os parent path windows ≡ ok p) × (check_read os child path windows ≡ ok p)
    unfolding check_read check_roots
    read_both path windows p h =
        let q = rw parts.2 at h in
        (
          check_roots_mono _ parent.fs_read_roots _ path windows p
              (under-roots_contained_parent (os.realpath path) child.fs_read_roots
                parent.fs_read_roots)
              q,
          check_roots_mono _ child.fs_read_roots _ path windows p
              (under-roots_contained_child (os.realpath path) child.fs_read_roots
                parent.fs_read_roots)
              q,
        )

    write_both :
        (path : String) (windows : Option Bool) (p : FilePath)
        → check_write os eff path windows ≡ ok p
        → (check_write os parent path windows ≡ ok p) × (check_write os child path windows ≡ ok p)
    unfolding check_write check_roots
    write_both path windows p h =
        let q = rw parts.3 at h in
        (
          check_roots_mono _ parent.fs_write_roots _ path windows p
              (under-roots_contained_parent (os.realpath path) child.fs_write_roots
                parent.fs_write_roots)
              q,
          check_roots_mono _ child.fs_write_roots _ path windows p
              (under-roots_contained_child (os.realpath path) child.fs_write_roots
                parent.fs_write_roots)
              q,
        )

    -- The effective manifest of a delegation permits no more than the parent's effective one, and
    -- no more than the child's own manifest: in tools, hosts, commands, reads, writes,
    -- classification levels and budget.
    pub attenuate-AtMost : AtMost os eff parent × AtMost os eff child
    attenuate-AtMost = (
      record {
        tool = λ n h. (tools_both n h).0;
        net = λ n h. (hosts_both n h).0;
        exec = λ n xs h. (exec_both n xs h).0;
        read = λ n w p h. (read_both n w p h).0;
        write = λ n w p h. (write_both n w p h).0;
        level = λ n h. (level_both n h).0;
        budget = omega (arith, parts.5);
      },
      record {
        tool = λ n h. (tools_both n h).1;
        net = λ n h. (hosts_both n h).1;
        exec = λ n xs h. (exec_both n xs h).1;
        read = λ n w p h. (read_both n w p h).1;
        write = λ n w p h. (write_both n w p h).1;
        level = λ n h. (level_both n h).1;
        budget = omega (arith, parts.5);
      },
    )
