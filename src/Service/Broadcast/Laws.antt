-- ===== src/Service/Broadcast/Laws.antt =====
-- Repeated requests to broadcast a transaction (service/sim_api.py).
use mathlib.Core.Path.{subst}
use cross_chain_mid_ware.Base.{
  ℕ, ◌+◌, ◌*◌, ◌≤◌, ◌<◌, ◌⊎◌, ◌≡◌, refl, ap, sym, ◌∙◌, String, ◌&&◌, Option, none, some, List, [],
  ◌∷◌, ◌++◌, str_eq, eq_refl, ltb, if◌then◌else◌, arith, Bool-cases, Option-cases, inl, inr,
}
use cross_chain_mid_ware.Base.Text.{lower}
use cross_chain_mid_ware.Base.Result.{Result, ok, err, Error, Result-cases}
use cross_chain_mid_ware.Service.Interface.{Response, given, Plugin, any_plugin}
use cross_chain_mid_ware.Service.Broadcast.{
  Outcome, BroadcastRow, BroadcastState, find_recent, delete_old, broadcast_answer, store_broadcast,
  send_broadcast, zchain_trans_broadcast_trx,
}

-- Nothing recent is nothing recent later.
find_recent-later :
    (chain id : String) (now later : ℕ) (rs : List BroadcastRow)
    → now ≤ later
    → find_recent chain id now rs ≡ none
    → find_recent chain id later rs ≡ none
unfolding find_recent
find_recent-later chain id now later [] h e = refl
find_recent-later chain id now later (r ∷ rs) h e =
    ground (arith, find_recent-later chain id now later rs h)

find_recent-append :
    (chain id : String) (now : ℕ) (rs : List BroadcastRow) (r : BroadcastRow)
    → find_recent chain id now rs ≡ none
    → find_recent chain id now (rs ++ r ∷ []) ≡ (
        if str_eq r.chain_id chain && str_eq r.trx id && ltb now (r.effective_time + 10)
        then some r
        else none)
unfolding find_recent
find_recent-append chain id now [] r e = refl
find_recent-append chain id now (x ∷ rs) r e = ground (arith, find_recent-append chain id now rs r)

-- What is deleted at `now` would not be found afterwards.
find_recent-delete_old :
    (chain id : String) (now later : ℕ) (rs : List BroadcastRow)
    → now ≤ later
    → find_recent chain id later (delete_old now rs) ≡ find_recent chain id later rs
unfolding find_recent delete_old
find_recent-delete_old chain id now later [] h = refl
find_recent-delete_old chain id now later (r ∷ rs) h =
    ground (arith, find_recent-delete_old chain id now later rs h)

module _ (md5 : String → String) (sim_btc_plugin : List String)
    (broadcast : Plugin → String → Result (Option String)) where
  store_broadcast-found :
      (chain id : String) (now later : ℕ) (result : Option String) (s : BroadcastState)
      → now ≤ later
      → later < now + 10
      → find_recent chain id now s.b_broadcast_trans_cache ≡ none
      → find_recent chain id later
          (store_broadcast md5 sim_btc_plugin broadcast chain id now result
            s).b_broadcast_trans_cache
        ≡ some (record { chain_id = chain; trx = id; effective_time = now; result = result })
  unfolding store_broadcast
  store_broadcast-found chain id now later result s h k e =
      let row : BroadcastRow = record {
        chain_id = chain;
        trx = id;
        effective_time = now;
        result = result;
      } in
      let rows = s.b_broadcast_trans_cache ++ row ∷ [] in
      let found : find_recent chain id later rows ≡ some row =
        find_recent-append chain id later s.b_broadcast_trans_cache row
          (find_recent-later chain id now later s.b_broadcast_trans_cache h e)
        ∙ ground (arith, eq_refl chain, eq_refl id) in
      elim (Bool-cases (ltb (s.last_clean_broadcast_cache_time + 10 * 60) now)) [
        | inl e' ↦ rw e' (find_recent-delete_old chain id now later rows h ∙ found)
        | inr e' ↦ rw e' found
      ]

  broadcast_trx-hit :
      (chain trx : String) (now : ℕ) (s : BroadcastState) (r : BroadcastRow)
      → find_recent chain (md5 trx) now s.b_broadcast_trans_cache ≡ some r
      → zchain_trans_broadcast_trx md5 sim_btc_plugin broadcast (given chain) trx now s
        ≡ (ok (broadcast_answer chain r.result), s, 0)
  unfolding zchain_trans_broadcast_trx
  broadcast_trx-hit chain trx now s r e = rw (zchain_trans_broadcast_trx, e) refl

  broadcast_trx-miss :
      (chain trx : String) (now : ℕ) (s : BroadcastState)
      → find_recent chain (md5 trx) now s.b_broadcast_trans_cache ≡ none
      → zchain_trans_broadcast_trx md5 sim_btc_plugin broadcast (given chain) trx now s
        ≡ send_broadcast md5 sim_btc_plugin broadcast chain trx now
            (any_plugin sim_btc_plugin chain (lower chain))
            s
  unfolding zchain_trans_broadcast_trx
  broadcast_trx-miss chain trx now s e = rw (zchain_trans_broadcast_trx, e) refl

  -- After a request in the state `s` came out as `o`: the same request at `later`.
  abbrev pub IsRepeated : String → String → ℕ → BroadcastState → Outcome → Type 0
  IsRepeated chain trx later s o =
      ((a : Response (String × Option String)) × (o.0 ≡ ok a)
        × (zchain_trans_broadcast_trx md5 sim_btc_plugin broadcast (given chain) trx later o.1
            ≡ (o.0, o.1, 0)))
      ⊎ ((e : Error) × (o.0 ≡ err e)
          × (o.1 ≡ s)
          × (zchain_trans_broadcast_trx md5 sim_btc_plugin broadcast (given chain) trx later o.1
              ≡ o))

  send_broadcast-ok :
      (chain trx : String) (now : ℕ) (p : Plugin) (s : BroadcastState) (result : Option String)
      → broadcast p trx ≡ ok result
      → send_broadcast md5 sim_btc_plugin broadcast chain trx now (some p) s ≡ (
        ok (broadcast_answer chain result),
        store_broadcast md5 sim_btc_plugin broadcast chain (md5 trx) now result s,
        1,
      )
  unfolding send_broadcast
  send_broadcast-ok chain trx now p s result b = rw (send_broadcast, b) refl

  send_broadcast-err :
      (chain trx : String) (now : ℕ) (p : Plugin) (s : BroadcastState) (raised : Error)
      → broadcast p trx ≡ err raised
      → send_broadcast md5 sim_btc_plugin broadcast chain trx now (some p) s ≡ (err raised, s, 1)
  unfolding send_broadcast
  send_broadcast-err chain trx now p s raised b = rw (send_broadcast, b) refl

  answered-again :
      (chain trx : String) (now later : ℕ) (s : BroadcastState) (result : Option String)
      → now ≤ later
      → later < now + 10
      → find_recent chain (md5 trx) now s.b_broadcast_trans_cache ≡ none
      → IsRepeated chain trx later s (
        ok (broadcast_answer chain result),
        store_broadcast md5 sim_btc_plugin broadcast chain (md5 trx) now result s,
        1,
      )
  answered-again chain trx now later s result h k e = inl (
    broadcast_answer chain result,
    refl,
    broadcast_trx-hit chain trx later
        (store_broadcast md5 sim_btc_plugin broadcast chain (md5 trx) now result s) _
        (store_broadcast-found chain (md5 trx) now later result s h k e),
  )

  raised-again :
      (chain trx : String) (now later : ℕ) (s : BroadcastState) (p : Plugin) (raised : Error)
      → now ≤ later
      → any_plugin sim_btc_plugin chain (lower chain) ≡ some p
      → broadcast p trx ≡ err raised
      → find_recent chain (md5 trx) now s.b_broadcast_trans_cache ≡ none
      → IsRepeated chain trx later s (err raised, s, 1)
  raised-again chain trx now later s p raised h known b e = inr (
    raised,
    refl,
    refl,
    broadcast_trx-miss chain trx later s
          (find_recent-later chain (md5 trx) now later s.b_broadcast_trans_cache h e)
        ∙ ap (λ o. send_broadcast md5 sim_btc_plugin broadcast chain trx later o s) known
        ∙ send_broadcast-err chain trx later p s raised b,
  )

  send_broadcast-again :
      (chain trx : String) (now later : ℕ) (p : Option Plugin) (s : BroadcastState)
      → now ≤ later
      → later < now + 10
      → any_plugin sim_btc_plugin chain (lower chain) ≡ p
      → find_recent chain (md5 trx) now s.b_broadcast_trans_cache ≡ none
      → let o = send_broadcast md5 sim_btc_plugin broadcast chain trx now p s in
        o.2 ≡ 1 → IsRepeated chain trx later s o
  unfolding send_broadcast
  send_broadcast-again chain trx now later none s h k known e asked = absurd (omega arith)
  send_broadcast-again chain trx now later (some p) s h k known e asked =
      elim (Result-cases (broadcast p trx)) [
        | inl (raised, b) ↦
            subst (IsRepeated chain trx later s)
              (sym (send_broadcast-err chain trx now p s raised b))
              (raised-again chain trx now later s p raised h known b e)
        | inr (result, b) ↦
            subst (IsRepeated chain trx later s)
              (sym (send_broadcast-ok chain trx now p s result b))
              (answered-again chain trx now later s result h k e)
      ]

  -- When a request has had the plug-in broadcast a transaction, within ten seconds after it: if it was
  -- answered, whatever came of it, the same request gets the same answer, changes nothing, and does
  -- not ask the plug-in again; if the plug-in raised, nothing was stored, and the same request asks
  -- the plug-in once more. For any digest and any plug-ins that answer alike both times.
  pub broadcast_trx-once :
      (chain trx : String) (now later : ℕ) (s : BroadcastState)
      → now ≤ later
      → later < now + 10
      → let o = zchain_trans_broadcast_trx md5 sim_btc_plugin broadcast (given chain) trx now s in
        o.2 ≡ 1 → IsRepeated chain trx later s o
  broadcast_trx-once chain trx now later s h k asked =
      elim (Option-cases (find_recent chain (md5 trx) now s.b_broadcast_trans_cache)) [
        | inl e ↦
            subst (λ o. o.2 ≡ 1 → IsRepeated chain trx later s o)
              (sym (broadcast_trx-miss chain trx now s e))
              (send_broadcast-again chain trx now later
                (any_plugin sim_btc_plugin chain (lower chain)) s h k refl e)
              asked
        | inr (r, e) ↦ absurd (omega (arith, ap (λ o. o.2) (broadcast_trx-hit chain trx now s r e)))
      ]
