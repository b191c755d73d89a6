-- ===== src/Usage/Flush.antt =====
-- usage/usage.service.ts: the counts on the shared store, and the flush before a response.
use upstat.Common.{
  ℕ, ◌+◌, ◌/◌, String, Option, none, some, List, [], ◌∷◌, ◌++◌, ltb, leb, if◌then◌else◌, ◌==◌,
  nat_eq, string_eq, or_else, get_elem?, Result, Action, ◌>>=◌, ◌>>◌, return, try, ok, err, Dict,
  get, put,
}
use upstat.Common.Text.{split, to_string}
use upstat.Valkey
use upstat.Valkey.{Hashes, Valkey, Link, eval}
use upstat.Collector.{Config}
use upstat.Usage.{
  Tally, Meter, window_ms, check_every_ms, lock_seconds, keep_seconds, ◌&◌, no_tally, add_local,
  on_store, send, flush_local,
}

-- `Number` of a text where that is an integer >= 0.
abbrev pub ToInteger : Type 0
ToInteger = String → Option ℕ

module _ {S : Type 0} (H : Hashes S) where
  -- ADD_SCRIPT, with KEYS[1], KEYS[2] and ARGV in their order.
  unfoldable pub add_script : String → String → String → String → ℕ → ℕ → S → ℕ × S
  add_script hash windows window field bytes items s =
      let counted = H.hincrby hash (field & "|i") items (H.hincrby hash (field & "|b") bytes s) in
      (1, H.sadd windows window (H.expire hash keep_seconds counted))

  -- CLAIM_SCRIPT: the counts, if nobody else holds the window's lock.
  unfoldable pub claim_script : String → String → S → Option (List String) × S
  claim_script hash lock s =
      let (taken, t) = H.set_nx lock lock_seconds s in
      if taken then (some (H.hgetall hash t), t) else (none, t)

  abbrev pub hdel_all : String → List String → S → S
  hdel_all hash [] s = s
  hdel_all hash (f ∷ fs) s = hdel_all hash fs (H.hdel hash f s)

  -- ACK_SCRIPT: the fields that were sent are deleted, an empty window too, and the lock.
  unfoldable pub ack_script : String → String → String → String → List String → S → ℕ × S
  ack_script hash windows lock window fields s =
      let left = hdel_all hash fields s in
      let closed = if H.hlen hash left == 0 then H.srem windows window left else left in
      (1, H.del lock closed)

abbrev pub windows_key : Valkey → String
windows_key v = Valkey.key v "usage:windows"

abbrev pub hash_key : Valkey → ℕ → String
hash_key v window = Valkey.key v ("usage:" & to_string window)

abbrev pub lock_key : Valkey → ℕ → String
lock_key v window = Valkey.key v ("usage:lock:" & to_string window)

-- A part of a text that was split; a part that is not there is `undefined`.
abbrev pub part : List String → ℕ → String
part parts i = or_else (get_elem? parts i) "undefined"

abbrev pub Rows : Type 0
Rows = Dict (Dict Tally)

module _ (integer : ToInteger) (window : ℕ) where
  abbrev pub add_count : List String → ℕ → Rows → Rows
  add_count parts value by_org =
      let org_id = part parts 0 in
      let id = part parts 1 & "|" & part parts 2 in
      let rows = or_else (get by_org org_id) [] in
      let t = or_else (get rows id) (no_tally window org_id (part parts 1) (part parts 2)) in
      let counted =
        if part parts 3 == "b" then record t { bytes = value } else record t { items = value } in
      put by_org org_id (put rows id counted)

  -- The loop over the reply; its values are counters, so `Number` reads them.
  unfoldable pub rows_of : Rows → List String → Rows
  unfolding split
  rows_of by_org [] = by_org
  rows_of by_org (f ∷ []) = by_org
  rows_of by_org (f ∷ v ∷ reply) =
      rows_of (add_count (split b'|' f) (or_else (integer v) 0) by_org) reply

abbrev pub tallies_of : Dict Tally → List Tally
tallies_of [] = []
tallies_of ((id, t) ∷ m) = t ∷ tallies_of m

-- The two fields of each tally of an organisation.
abbrev pub fields_of : String → List Tally → List String
fields_of org_id [] = []
fields_of org_id (t ∷ ts) =
    (org_id & "|" & t.key_id & "|" & t.pillar & "|b")
    ∷ (org_id & "|" & t.key_id & "|" & t.pillar & "|i")
    ∷ fields_of org_id ts

-- Sorted and rid of what is no closed window.
abbrev pub insert_window : ℕ → List ℕ → List ℕ
insert_window w [] = w ∷ []
insert_window w (x ∷ xs) = let rest = insert_window w xs in if leb w x then w ∷ x ∷ xs else x ∷ rest

abbrev pub add_due : ℕ → Option ℕ → List ℕ → List ℕ
add_due current none ws = ws
add_due current (some w) ws = if ltb w current then insert_window w ws else ws

unfoldable pub due_windows : ToInteger → ℕ → List String → List ℕ
due_windows integer current [] = []
due_windows integer current (m ∷ ms) = add_due current (integer m) (due_windows integer current ms)

-- What one call of the store meets at each step of a window: the claim and the acknowledgement.
pub record Links : Type 0 where
  pub add : Link
  pub list_windows : Link
  pub claim : ℕ → Link
  pub ack : ℕ → Link

module _ {S : Type 0} (H : Hashes S) (integer : ToInteger) (cfg : Config) (v : Valkey)
    (links : Links) (clock : ℕ) where
  -- Sends the organisations in turn; what was sent before a failure counts as sent.
  unfoldable pub send_rows : Rows → Meter S → Result (Unit {0}) × List String × Meter S
  unfolding send
  send_rows [] s = (ok tt, [], s)
  send_rows ((org_id, rows) ∷ rest) s =
      let (result, t) = send cfg clock org_id (tallies_of rows) s in
      let (last, fields, u) = send_rows rest t in
      elim result [
        | err e ↦ (err e, [], t)
        | ok _ ↦ (last, fields_of org_id (tallies_of rows) ++ fields, u)
      ]

  abbrev pub flush_claimed : ℕ → Option (List String) → Action (Meter S) (Unit {0})
  flush_claimed window none s = (ok tt, s)
  flush_claimed window (some reply) s =
      let (result, fields, t) = send_rows (rows_of integer window [] reply) s in
      -- `finally`: the acknowledgement's own failure is only logged.
      let acked =
        on_store
          (eval v (links.ack window) (
            ack_script H (hash_key v window) (windows_key v) (lock_key v window) (to_string window)
              fields))
          t in
      (result, acked.1)

  unfoldable pub flush_windows : List ℕ → Action (Meter S) (Unit {0})
  unfolding eval claim_script ack_script rows_of send_rows
  flush_windows [] = return tt
  flush_windows (window ∷ windows) = do
    reply ←
        on_store
          (eval v (links.claim window) (claim_script H (hash_key v window) (lock_key v window)))
    flush_claimed window reply
    flush_windows windows

  unfoldable pub flush_valkey : ℕ → Action (Meter S) (Unit {0})
  unfolding due_windows flush_windows eval
  flush_valkey current = do
    members ← on_store (eval v links.list_windows (λ s. (H.smembers (windows_key v) s, s)))
    flush_windows (due_windows integer current members)

  -- `flushDue`: never fails; its failures are logged.
  unfoldable pub flush_due : ℕ → Action (Meter S) (Unit {0})
  unfolding flush_local flush_valkey
  flush_due now s =
      if ltb now s.usage.next_check_at
      then (ok tt, s)
      else (let t = record s { usage = record s.usage { next_check_at = now + check_every_ms } } in
          let current = now / window_ms in
          try (if v.enabled then flush_valkey current else flush_local cfg clock current)
            (λ e. return tt) t)

  -- `add`.
  unfoldable pub add : String → String → String → ℕ → ℕ → ℕ → Action (Meter S) (Unit {0})
  unfolding eval add_script add_local
  add org_id key_id pillar bytes items now s =
      if v.enabled
      then (do
        answered ← on_store (
            eval v links.add (
              add_script H (hash_key v (now / window_ms)) (windows_key v)
                (to_string (now / window_ms)) (org_id & "|" & key_id & "|" & pillar) bytes items))
        return tt)
          s
      else (
        ok tt,
        record s {
          usage = record s.usage {
            local = add_local org_id key_id pillar bytes items now s.usage.local;
          };
        },
      )
