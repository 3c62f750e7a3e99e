-- ===== src/Model/Json.antt =====
-- encoding/json, up to its printing: objects, and the fields that an empty value leaves out; and the
-- messages that a system writes.
use g_lm.Prelude.{List, [], ◌∷◌, map}
use g_lm.Prelude.Texts.{Text, lit}
use g_lm.Model.Chat.{Json, string, array, object, Items, nil, cons, Fields, end, field, Message}

abbrev pub items : List Json → Items
items [] = nil
items (j ∷ js) = cons j (items js)

abbrev pub fields_of : List (Text × Json) → Fields
fields_of [] = end
fields_of ((k, j) ∷ fs) = field k j (fields_of fs)

abbrev pub json_object : List (Text × Json) → Json
json_object fs = object (fields_of fs)

abbrev pub json_strings : List Text → Json
json_strings ts = array (items (map string ts))

abbrev pub unless_empty : Text → List Text → List (Text × Json)
unless_empty key [] = []
unless_empty key (t ∷ ts) = (key, json_strings (t ∷ ts)) ∷ []

abbrev pub unless_blank : Text → Text → List (Text × Json)
unless_blank key [] = []
unless_blank key (c ∷ t) = (key, string (c ∷ t)) ∷ []

abbrev pub system_message : Text → Message
system_message content = record {
  role = lit "system";
  content = content;
  name = [];
  tool_call_id = [];
  tool_calls = [];
}
