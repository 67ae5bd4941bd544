-- ===== src/Cli/Listing.antt =====
-- list.go: the rows that the list command prints, before they are aligned.
use bpfd.Prelude.{List, [], ◌∷◌, nat_eq, Result, ok, err, Text, codes, text_eq}
use bpfd.Grpc.{Rule}
use bpfd.Api.{Server}
use bpfd.Api.Listing.{list_rules}

abbrev pub Row : Type 0
Row = Text × Text

-- the loop over the rules of the answer
unfoldable pub rows : List Rule → List Row
rows [] = []
rows (r ∷ rules) = (r.name, r.tracer) ∷ rows rules

-- `Run`; the call of the client is a call of the server
unfoldable pub list_command : Result Text (Unit {0}) → Server → Result Text (List Row)
unfolding list_rules rows
list_command client s = elim client [
  | err e ↦ err e
  | ok _ ↦ ok ((codes "NAME", codes "TRACER") ∷ rows (list_rules s).rules)
]
