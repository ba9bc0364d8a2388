-- ===== src/Store/Document.antt =====
-- The shape of the JSON in the registry's file. A time is a value of its own: it stands for the string
-- that time.Time writes and reads. A member that the document does not have may stand in the list
-- without a value.
use timich_agent.Base.{ℕ, Bool, Option, List, Text}

pub data JsonValue : Type 0 where
  null : JsonValue
  text : Text → JsonValue
  number time : ℕ → JsonValue
  flag : Bool → JsonValue

abbrev pub JsonObject : Type 0
JsonObject = List (Text × Option JsonValue)

-- The document: its arrays of objects by their tags.
abbrev pub RegistryJson : Type 0
RegistryJson = List (Text × Option (List JsonObject))
