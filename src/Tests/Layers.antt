-- ===== src/Tests/Layers.antt =====
-- The pipeline with the layers at a concrete input.
use neu_rust.Prelude.{map, ℕ}
use neu_rust.Prelude.Text.{utf8}
use neu_rust.Layers.{Shared, behind}
use neu_rust.Layers.Accounting.{layers, Outcome, execute-Outcome}
use neu_rust.Routing.Pipeline.{execute}
use neu_rust.Security.Masker.{PiiMasker, bidirectional}
use neu_rust.Stores.Memory.{InMemoryEventStore, memory_store, new_store}
use neu_rust.Tests.Data.{question, servers}
use neu_rust.Tests.Security.{ascii}
use neu_rust.Tests.Spending.{budget}
use neu_rust.Tests.Stores.{counting, no_bool}

abbrev masker : PiiMasker
masker = record { direction = bidirectional; min_window_tokens = 50 }

abbrev fresh : Shared InMemoryEventStore ℕ
fresh = record { spend_micro = 0; store = new_store; world = 0 }

execute-Outcome_example :
    let out =
      execute
        (layers counting no_bool (memory_store counting) 9 ascii masker budget (utf8 "limit"))
        (map behind servers)
        question
        fresh in
    Outcome counting no_bool
      (memory_store counting)
      9
      ascii
      masker
      budget
      (utf8 "limit")
      servers
      question
      fresh
      out.0
      out.1
      out.2
execute-Outcome_example =
    execute-Outcome counting no_bool (memory_store counting) 9 ascii masker budget (utf8 "limit")
      servers question fresh
