-- ===== src/SqlGuard/Parser.antt =====
-- sqlglot, which the program calls: its trees and what the guard does with them are a parameter.
use memcove.Common.{ℕ, ◌≡◌, Bool, true, false, Option, List, Text, length, any}

-- the node classes that the guard tells apart
pub data Node : Type 0 where
  select union intersect except subquery : Node
  insert update delete merge create drop alter truncate_table command : Node
  other : Node

-- _ALLOWED_TOP
unfoldable pub is_allowed_top : Node → Bool
is_allowed_top select = true
is_allowed_top union = true
is_allowed_top intersect = true
is_allowed_top except = true
is_allowed_top subquery = true
is_allowed_top _ = false

-- _FORBIDDEN
unfoldable pub is_forbidden : Node → Bool
is_forbidden insert = true
is_forbidden update = true
is_forbidden delete = true
is_forbidden merge = true
is_forbidden create = true
is_forbidden drop = true
is_forbidden alter = true
is_forbidden truncate_table = true
is_forbidden command = true
is_forbidden _ = false

-- a table reference: a part that is absent is the empty text
pub record Table : Type 0 where
  pub name : Text
  pub db : Text
  pub catalog : Text

-- the LIMIT of a query: a number, or another expression
pub data Limit : Type 0 where
  literal : ℕ → Limit
  expression : Limit

pub record Sqlglot : Type 1 where
  pub Tree : Type 0
  -- `sqlglot.parse`: none if it raises, with None for an empty statement
  pub parse : Text → Option (List (Option Tree))
  -- `sqlglot.parse_one`
  pub parse_one : Text → Option Tree
  pub top : Tree → Node
  -- the classes of all nodes, and the tables in the order of `find_all`
  pub nodes : Tree → List Node
  pub cte_aliases : Tree → List Text
  pub tables : Tree → List Table
  -- the tree after `table.set` on each of its tables
  pub with_tables : Tree → List Table → Tree
  pub limit : Tree → Option Limit
  pub with_limit : Tree → ℕ → Tree
  pub render : Tree → Text
  -- what was set is what is found, and identifiers are no statements
  pub tables_with_tables :
      (t : Tree) (ts : List Table) → length ts ≡ length (tables t) → tables (with_tables t ts) ≡ ts
  pub forbidden_with_tables :
      (t : Tree) (ts : List Table)
      → any is_forbidden (nodes (with_tables t ts)) ≡ any is_forbidden (nodes t)
