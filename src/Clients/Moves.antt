-- ===== src/Clients/Moves.antt =====
-- What a turn does to the pool, as counts of connections.
use amigao.Base.{ℕ, suc, ◌+◌, ◌<◌, ◌≡◌, ◌≢◌, refl, sym, ap, ◌∙◌, arith, ◌==◌}
use amigao.Clients.Counts.{one_if, in_chain, in_chain-unlink, in_chain-find_node}
use amigao.Pool.Acquire.{find_node-get_connection, popped-IsLeased}
use amigao.Pool.Nodes
use amigao.Pool.Nodes.Distinct.{find_node-connection, find_node-All, IsNonNull, length-unlink}
use amigao.Pool.Nodes.Laws.{if_exist-some}
use amigao.Pool.Nodes.Move.{moved_lists}
use amigao.Pool.Recycle.{recycle_connection-without}
use amigao.Pool.Rounds.{popped}
use amigao.Pool.Validity.{IsValid}
use amigao.Pool.{SqlDbPool, recycle_connection}

-- How often a connection is in use.
abbrev pub in_use : ℕ → SqlDbPool → ℕ
in_use c p = in_chain c p.used_pool.next

-- `q` is `p` with the connection `x` in use besides.
pub record IsMore (x : ℕ) (p q : SqlDbPool) : Type 0 where
  pub valid : IsValid q
  pub more : (c : ℕ) → in_use c q ≡ one_if (x == c) + in_use c p
  pub numbers : q.used_pool.node_numbers ≡ suc p.used_pool.node_numbers
  pub same_limits : q.limits ≡ p.limits

pub popped-IsMore :
    (p : SqlDbPool)
    → IsValid p
    → p.used_pool.node_numbers ≢ p.max_conn
    → p.min_idle < p.unused_pool.node_numbers
    → IsMore (Nodes.get_connection p.unused_pool) p (popped (Nodes.get_connection p.unused_pool) p)
popped-IsMore p v room enough =
    let c : ℕ = Nodes.get_connection p.unused_pool in
    let (n, found) = find_node-get_connection p.unused_pool (omega (arith, v.unused.counted)) in
    let leased = popped-IsLeased p c n v found (omega (arith, v.used_le)) in
    let (moved, _, _, _) =
      moved_lists p.unused_pool p.used_pool c n v.unused v.used v.apart found in
    let named = find_node-connection c p.unused_pool.next found in
    record {
      valid = leased.valid;
      more = λ d. rw moved (rw named refl);
      numbers = leased.one_more;
      same_limits = refl;
    }

-- A connection in use that is given back is in use no more.
pub recycled-IsLess :
    (x : ℕ) (p : SqlDbPool) → IsValid p → 0 < in_use x p → IsMore x (recycle_connection x p) p
recycled-IsLess x p v held =
    let (n, found) = in_chain-find_node x p.used_pool.next held in
    let named = find_node-connection x p.used_pool.next found in
    let not_null : x ≢ 0 =
      λ e. find_node-All x IsNonNull p.used_pool.next found v.used.non_null (named ∙ e) in
    let leased = if_exist-some p.used_pool x v.used not_null found in
    let (used, limits) = recycle_connection-without p x v not_null leased in
    record {
      valid = v;
      more = λ c.
          in_chain-unlink c x p.used_pool.next found
          ∙ ap (λ l. one_if (x == c) + in_chain c l.next) (sym used);
      numbers =
          let shorter = length-unlink x p.used_pool.next found in
          rw used (omega (arith, v.used.counted, shorter));
      same_limits = sym limits;
    }
