-- ===== src/Command/Lists/Race.antt =====
-- LPUSH of two connections: each handler takes the storage's lock once to read and once to write
-- (src/command/list.rs, `lpush`), and the connections' tasks share the storage (src/server/mod.rs), so that the
-- steps of the two may come in any order.
pub mod Outcomes
use ai_kv.Base.{ℕ, List, length, pos}
use ai_kv.Text.{Bytes}
use ai_kv.Error.{Result, ok, err}
use ai_kv.Resp.{RespValue, integer}
use ai_kv.Storage.Value.{new_list}
use ai_kv.Storage.Adapter.{StorageAdapter, get_value, set_value}
use ai_kv.Command.Lists.{lpush, list_or_new, push_front_all}

-- How far an LPUSH is: it has not begun, it holds the list to write, or it has replied.
pub data Phase : Type 0 where
  waiting : Phase
  holding : List Bytes → Phase
  replied : Result RespValue → Phase

-- The two accesses of `lpush`, each under the lock.
pub push_step : ℕ → Bytes → List Bytes → ℕ → Phase → StorageAdapter → Phase × StorageAdapter
push_step now key es db waiting s =
    let (stored, s') = get_value now db key s in
    (
      elim stored [
        | err e ↦ replied (err e)
        | ok o ↦ elim (list_or_new o) [
          | err e ↦ replied (err e)
          | ok l ↦ holding (push_front_all es l)
        ]
      ],
      s',
    )
push_step now key es db (holding l) s =
    let (done, s') = set_value db key (new_list l) s in
    (elim done [ err e ↦ replied (err e) | ok _ ↦ replied (ok (integer (pos (length l)))) ], s')
push_step now key es db (replied r) s = (replied r, s)

-- Two connections that push to one key, and the storage they share.
pub record Pair : Type 0 where
  pub first : Phase
  pub second : Phase
  pub storage : StorageAdapter

-- One step of the first connection, or of the second.
pub data Step (now : ℕ) (key : Bytes) (es fs : List Bytes) (db : ℕ) : Pair → Pair → Type 0 where
  first_steps :
      (p q : Phase) (s : StorageAdapter)
      → Step now key es fs db
          (record { first = p; second = q; storage = s })
          (record {
            first = (push_step now key es db p s).0;
            second = q;
            storage = (push_step now key es db p s).1;
          })
  second_steps :
      (p q : Phase) (s : StorageAdapter)
      → Step now key es fs db
          (record { first = p; second = q; storage = s })
          (record {
            first = p;
            second = (push_step now key fs db q s).0;
            storage = (push_step now key fs db q s).1;
          })

pub data Steps (now : ℕ) (key : Bytes) (es fs : List Bytes) (db : ℕ) : Pair → Pair → Type 0 where
  stop : (p : Pair) → Steps now key es fs db p p
  more :
      (p q r : Pair)
      → Step now key es fs db p q
      → Steps now key es fs db q r
      → Steps now key es fs db p r
