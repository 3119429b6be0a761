-- ===== src/SqlGuard/Toy.antt =====
-- A toy parser that meets the laws of `Sqlglot`: a statement is a list of table names, separated
-- by spaces, each with or without a schema in front.
use memcove.Common.{
  refl, none, some, List, [], ◌∷◌, ◌++◌, map, Text, codes, is_nonempty, if◌then◌else◌,
}
use memcove.Unicode.{split_on, partition}
use memcove.SqlGuard.{Sqlglot, Table, Node}

unfoldable pub word_table : Text → Table
word_table w =
    let (before, behind) = partition b'.' w in
    if is_nonempty behind
    then record { name = behind; db = before; catalog = [] }
    else record { name = before; db = []; catalog = [] }

unfoldable pub render_table : Table → Text
render_table t = t.catalog ++ codes "." ++ t.db ++ codes "." ++ t.name ++ codes " "

unfoldable pub render_tables : List Table → Text
render_tables [] = []
render_tables (t ∷ ts) = render_table t ++ render_tables ts

unfoldable pub parse_words : Text → List Table
parse_words text = map word_table (split_on b' ' text)

abbrev pub toy : Sqlglot
toy = record {
  Tree = List Table;
  parse = λ text. some (some (parse_words text) ∷ []);
  parse_one = λ text. some (parse_words text);
  top = λ t. Node.select;
  nodes = λ t. Node.select ∷ Node.other ∷ [];
  cte_aliases = λ t. [];
  tables = λ t. t;
  with_tables = λ t ts. ts;
  limit = λ t. none;
  with_limit = λ t n. t;
  render = render_tables;
  tables_with_tables = λ t ts h. refl;
  forbidden_with_tables = λ t ts. refl;
}
