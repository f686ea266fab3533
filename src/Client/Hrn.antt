-- ===== src/Client/Hrn.antt =====
-- `HRN` of olp-cpp-sdk-core/src/client/HRN.cpp, the names of HERE resources, and `Tokenizer` of
-- olp-cpp-sdk-core/src/client/Tokenizer.h. A text is a list of bytes.
pub mod RoundTrip
pub mod Tests
use here_data_sdk_cpp.Common.{
  ℕ, zero, suc, Bool, true, false, ◌&&◌, ◌||◌, not, List, [], ◌∷◌, ◌++◌, Option, none, some, ◌==◌,
  if◌then◌else◌,
}

abbrev pub Text : Type 0
Text = List ℕ

unfoldable pub is_empty : Text → Bool
is_empty [] = true
is_empty (x ∷ s) = false

-- `==` of `std::string`.
unfoldable pub text_equal : Text → Text → Bool
text_equal [] [] = true
text_equal [] (y ∷ t) = false
text_equal (x ∷ s) [] = false
text_equal (x ∷ s) (y ∷ t) = if x == y then text_equal s t else false

-- ':'.
abbrev pub separator : ℕ
separator = 58

-- Whether the text is empty, and what stands from the position on; none is `npos`.
pub record Tokenizer : Type 0 where
  pub str_empty : Bool
  pub rest : Option Text

unfoldable pub new_tokenizer : Text → Tokenizer
new_tokenizer input = record { str_empty = is_empty input; rest = some input }

unfoldable pub has_next : Tokenizer → Bool
has_next t = if t.str_empty then false else elim t.rest [ none ↦ false | some s ↦ true ]

-- The text up to the next separator, and the text behind it.
unfoldable pub first_token : Text → Text
first_token [] = []
first_token (x ∷ s) = if x == separator then [] else x ∷ first_token s

unfoldable pub after_token : Text → Option Text
after_token [] = none
after_token (x ∷ s) = if x == separator then some s else after_token s

unfoldable pub next : Tokenizer → Text × Tokenizer
next t = elim t.rest [
  | none ↦ ([], t)
  | some s ↦ (first_token s, record t { rest = after_token s })
]

unfoldable pub tail : Tokenizer → Text × Tokenizer
tail t = elim t.rest [ none ↦ ([], t) | some s ↦ (s, record t { rest = none }) ]

-- `if (tokenizer.HasNext()) field = tokenizer.Next()`, for a field that is empty, and with
-- `Tail()`.
unfoldable pub next_field : Tokenizer → Text × Tokenizer
next_field t = if has_next t then next t else ([], t)

unfoldable pub tail_field : Tokenizer → Text × Tokenizer
tail_field t = if has_next t then tail t else ([], t)

pub data ServiceType : Type 0 where
  unknown : ServiceType
  data_service : ServiceType
  schema : ServiceType
  pipeline : ServiceType

pub record Hrn : Type 0 where
  pub partition : Text
  pub service : ServiceType
  pub region : Text
  pub account : Text
  pub catalog_id : Text
  pub layer_id : Text
  pub group_id : Text
  pub schema_name : Text
  pub version : Text
  pub pipeline_id : Text

abbrev pub hrn_name : Text
hrn_name = 104 ∷ 114 ∷ 110 ∷ []

abbrev pub data_tag : Text
data_tag = 100 ∷ 97 ∷ 116 ∷ 97 ∷ []

abbrev pub schema_tag : Text
schema_tag = 115 ∷ 99 ∷ 104 ∷ 101 ∷ 109 ∷ 97 ∷ []

abbrev pub pipeline_tag : Text
pipeline_tag = 112 ∷ 105 ∷ 112 ∷ 101 ∷ 108 ∷ 105 ∷ 110 ∷ 101 ∷ []

unfoldable pub with_layer : Text → Text
with_layer [] = []
with_layer (x ∷ s) = separator ∷ x ∷ s

unfoldable pub service_fields : Hrn → ServiceType → Text
service_fields h data_service =
    data_tag
    ++ separator
      ∷ (h.region ++ separator ∷ (h.account ++ separator ∷ (h.catalog_id ++ with_layer h.layer_id)))
service_fields h schema =
    schema_tag
    ++ separator
      ∷ (h.region
          ++ separator
            ∷ (h.account
                ++ separator
                  ∷ (h.group_id ++ separator ∷ (h.schema_name ++ separator ∷ h.version))))
service_fields h pipeline =
    pipeline_tag ++ separator ∷ (h.region ++ separator ∷ (h.account ++ separator ∷ h.pipeline_id))
service_fields h unknown = separator ∷ (h.region ++ separator ∷ (h.account ++ separator ∷ []))

unfoldable pub to_string : Hrn → Text
to_string h = hrn_name ++ separator ∷ (h.partition ++ separator ∷ service_fields h h.service)

unfoldable pub to_catalog_hrn_string : Hrn → Text
to_catalog_hrn_string h = elim h.service [
  | data_service ↦
      hrn_name
      ++ separator
        ∷ (h.partition
            ++ separator
              ∷ (data_tag
                  ++ separator ∷ (h.region ++ separator ∷ (h.account ++ separator ∷ h.catalog_id))))
  | _ ↦ []
]

abbrev pub no_hrn : Hrn
no_hrn = record {
  partition = [];
  service = unknown;
  region = [];
  account = [];
  catalog_id = [];
  layer_id = [];
  group_id = [];
  schema_name = [];
  version = [];
  pipeline_id = [];
}

-- The service of its name; none is an invalid service.
unfoldable pub service_of : Text → Option ServiceType
service_of s =
    if text_equal s data_tag
    then some data_service
    else if text_equal s schema_tag
    then some schema
    else if text_equal s pipeline_tag
    then some pipeline
    else none

-- The fields of the service, from its part of the text.
unfoldable pub parse_service : Hrn → ServiceType → Tokenizer → Hrn
parse_service h data_service t = record h {
  catalog_id = (next_field t).0;
  layer_id = (tail_field (next_field t).1).0;
}
parse_service h schema t = record h {
  group_id = (next_field t).0;
  schema_name = (next_field (next_field t).1).0;
  version = (tail_field (next_field (next_field t).1).1).0;
}
parse_service h pipeline t = record h { pipeline_id = (tail_field t).0 }
parse_service h unknown t = h

-- The region, the account and the fields of the service.
unfoldable pub parse_fields : Hrn → Tokenizer → Hrn
parse_fields h t =
    let account = next_field (next_field t).1 in
    parse_service (record h { region = (next_field t).0; account = account.0 }) h.service account.1

-- From the service on: an invalid one ends the parsing, a missing one does not.
unfoldable pub parse_from_service : Hrn → Tokenizer → Hrn
parse_from_service h t =
    if has_next t
    then elim (service_of (next t).0) [
      | none ↦ h
      | some service ↦ parse_fields (record h { service = service }) (next t).1
    ]
    else parse_fields h t

-- `HRN(input)`.
unfoldable pub parse : Text → Hrn
parse input =
    let t = new_tokenizer input in
    let partition = next_field (next t).1 in
    if has_next t
    then if text_equal (next t).0 hrn_name
      then parse_from_service (record no_hrn { partition = partition.0 }) partition.1
      else no_hrn
    else no_hrn

unfoldable pub equal_service : Hrn → Hrn → ServiceType → ServiceType → Bool
equal_service h rhs data_service data_service =
    text_equal h.catalog_id rhs.catalog_id && text_equal h.layer_id rhs.layer_id
equal_service h rhs schema schema =
    text_equal h.group_id rhs.group_id
    && text_equal h.schema_name rhs.schema_name
    && text_equal h.version rhs.version
equal_service h rhs pipeline pipeline = text_equal h.pipeline_id rhs.pipeline_id
equal_service h rhs s t = false

-- `operator==`.
unfoldable pub equals : Hrn → Hrn → Bool
equals h rhs =
    text_equal h.partition rhs.partition
    && text_equal h.region rhs.region
    && text_equal h.account rhs.account
    && equal_service h rhs h.service rhs.service

unfoldable pub is_null : Hrn → Bool
is_null h = elim h.service [
  | data_service ↦ is_empty h.partition || is_empty h.catalog_id
  | schema ↦
      is_empty h.partition || is_empty h.group_id || is_empty h.schema_name || is_empty h.version
  | pipeline ↦ is_empty h.partition || is_empty h.pipeline_id
  | unknown ↦ true
]
