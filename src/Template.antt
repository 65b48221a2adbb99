-- ===== src/Template.antt =====
-- internal/model/template.go: the keys that a kind of transaction reads and writes. The source
-- changes a template through its pointer: a method that does returns the changed template.
use let_mil_go.Common.{String, Bool, List, string_eq}
use let_mil_go.GoMap.{Map, is_some}
use let_mil_go.GoMap

pub record TransactionTemplate : Type 0 where
  pub name : String
  pub static_reads : Map String (Unit {0})
  pub static_writes : Map String (Unit {0})

unfoldable pub new_transaction_template : String → TransactionTemplate
new_transaction_template name = record {
  name = name;
  static_reads = GoMap.empty;
  static_writes = GoMap.empty;
}

unfoldable pub add_read : TransactionTemplate → String → TransactionTemplate
add_read t key = record t { static_reads = GoMap.put t.static_reads key tt }

unfoldable pub add_write : TransactionTemplate → String → TransactionTemplate
add_write t key = record t { static_writes = GoMap.put t.static_writes key tt }

unfoldable pub has_read : TransactionTemplate → String → Bool
has_read t key = is_some (GoMap.get t.static_reads key)

unfoldable pub has_write : TransactionTemplate → String → Bool
has_write t key = is_some (GoMap.get t.static_writes key)

unfoldable pub read_keys : TransactionTemplate → List String
read_keys t = GoMap.keys t.static_reads

unfoldable pub write_keys : TransactionTemplate → List String
write_keys t = GoMap.keys t.static_writes
