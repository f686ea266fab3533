-- ===== src/Client/Hrn/RoundTrip.antt =====
-- The text of a name, parsed again.
use mathlib.Core.List.{append-nil}
use here_data_sdk_cpp.Common.{
  ◌≡◌, refl, ◌∙◌, arith, Bool, true, false, ◌&&◌, [], ◌∷◌, ◌++◌, none, some, ◌==◌, if◌then◌else◌,
}
use here_data_sdk_cpp.Client.Hrn.{
  Text, is_empty, text_equal, separator, Tokenizer, new_tokenizer, has_next, first_token,
  after_token, next, tail, next_field, tail_field, ServiceType, Hrn, unknown, data_service, schema,
  pipeline, hrn_name, data_tag, schema_tag, pipeline_tag, with_layer, service_fields, to_string,
  no_hrn, service_of, parse_service, parse_fields, parse_from_service, parse, equal_service, equals,
}

-- The text has no separator.
unfoldable pub plain : Text → Bool
plain [] = true
plain (x ∷ s) = if x == separator then false else plain s

abbrev at : Text → Tokenizer
at s = record { str_empty = false; rest = some s }

first_token-append : (a s : Text) → plain a ≡ true → first_token (a ++ separator ∷ s) ≡ a
unfolding plain first_token
first_token-append [] s h = refl
first_token-append (x ∷ a) s h = ground (arith, first_token-append a s)

after_token-append : (a s : Text) → plain a ≡ true → after_token (a ++ separator ∷ s) ≡ some s
unfolding plain after_token
after_token-append [] s h = refl
after_token-append (x ∷ a) s h = ground (arith, after_token-append a s)

first_token_last : (a : Text) → plain a ≡ true → first_token a ≡ a
unfolding plain first_token
first_token_last [] h = refl
first_token_last (x ∷ a) h = ground (arith, first_token_last a)

after_token_last : (a : Text) → plain a ≡ true → after_token a ≡ none
unfolding plain after_token
after_token_last [] h = refl
after_token_last (x ∷ a) h = ground (arith, after_token_last a)

next_field-append : (a s : Text) → plain a ≡ true → next_field (at (a ++ separator ∷ s)) ≡ (a, at s)
unfolding next_field has_next next
next_field-append a s h = rw (first_token-append a s h, after_token-append a s h) refl

text_equal_refl : (s : Text) → text_equal s s ≡ true
unfolding text_equal
text_equal_refl [] = refl
text_equal_refl (x ∷ s) = ground (arith, text_equal_refl s)

-- The last two fields of a catalog's name.
catalog_layer :
    (a s : Text)
    → plain a ≡ true
    → ((next_field (at (a ++ with_layer s))).0 ≡ a)
      × ((tail_field (next_field (at (a ++ with_layer s))).1).0 ≡ s)
unfolding with_layer next_field has_next next tail_field tail
catalog_layer a [] h = rw (append-nil, first_token_last a h, after_token_last a h) (refl, refl)
catalog_layer a (x ∷ s) h =
    rw (first_token-append a (x ∷ s) h, after_token-append a (x ∷ s) h) (refl, refl)

tail_field_lem : (s : Text) → (tail_field (at s)).0 ≡ s
unfolding tail_field tail has_next
tail_field_lem s = refl

parse_fields_lem :
    (h : Hrn) (region account rest : Text)
    → plain region ≡ true
    → plain account ≡ true
    → parse_fields h (at (region ++ separator ∷ (account ++ separator ∷ rest)))
      ≡ parse_service (record h { region = region; account = account }) h.service (at rest)
unfolding parse_fields
parse_fields_lem h region account rest hr ha =
    rw
      (next_field-append region (account ++ separator ∷ rest) hr, next_field-append account rest ha)
      refl

parse_from_service_lem :
    (h : Hrn) (tag rest : Text) (service : ServiceType)
    → plain tag ≡ true
    → service_of tag ≡ some service
    → parse_from_service h (at (tag ++ separator ∷ rest))
      ≡ parse_fields (record h { service = service }) (at rest)
unfolding parse_from_service has_next next
parse_from_service_lem h tag rest service ht e =
    rw (first_token-append tag rest ht, e, after_token-append tag rest ht) refl

-- What stands before the fields of the service is read back.
parse-append :
    (partition region account tag rest : Text) (service : ServiceType)
    → plain partition ≡ true
    → plain tag ≡ true
    → plain region ≡ true
    → plain account ≡ true
    → service_of tag ≡ some service
    → parse (
        hrn_name
        ++ separator
          ∷ (partition
              ++ separator
                ∷ (tag ++ separator ∷ (region ++ separator ∷ (account ++ separator ∷ rest)))))
      ≡ parse_service
          (record no_hrn {
            partition = partition;
            service = service;
            region = region;
            account = account;
          })
          service
          (at rest)
unfolding parse new_tokenizer is_empty has_next next first_token after_token text_equal
parse-append partition region account tag rest service hp ht hr ha e =
    let fields = region ++ separator ∷ (account ++ separator ∷ rest) in
    rw (next_field-append partition (tag ++ separator ∷ fields) hp) (
      parse_from_service_lem (record no_hrn { partition = partition }) tag fields service ht e
      ∙ parse_fields_lem (record no_hrn { partition = partition; service = service }) region account
          rest hr ha)

-- The fields that the name's service has, and that stand before another, have no separator.
unfoldable pub plain_fields : Hrn → ServiceType → Bool
plain_fields h data_service = plain h.catalog_id
plain_fields h schema = plain h.group_id && plain h.schema_name
plain_fields h pipeline = true
plain_fields h unknown = false

-- The partition, the region and the account have none either.
unfoldable pub IsPlain : Hrn → Type 0
IsPlain h =
    (plain h.partition ≡ true)
    × (plain h.region ≡ true)
    × (plain h.account ≡ true)
    × (plain_fields h h.service ≡ true)

read_back : Hrn → ServiceType → Text
read_back h service = hrn_name ++ separator ∷ (h.partition ++ separator ∷ service_fields h service)

equals-parse :
    (h : Hrn) (service : ServiceType)
    → plain h.partition ≡ true
    → plain h.region ≡ true
    → plain h.account ≡ true
    → plain_fields h service ≡ true
    → equals (parse (read_back h service)) (record h { service = service }) ≡ true
unfolding read_back plain_fields service_fields parse_service equals equal_service plain service_of
    text_equal
equals-parse h data_service hp hr ha hf =
    let rest = h.catalog_id ++ with_layer h.layer_id in
    let (catalog, layer) = catalog_layer h.catalog_id h.layer_id hf in
    rw
      (
        parse-append h.partition h.region h.account data_tag rest data_service hp refl hr ha refl,
        catalog,
        layer,
        text_equal_refl h.partition,
        text_equal_refl h.region,
        text_equal_refl h.account,
        text_equal_refl h.catalog_id,
        text_equal_refl h.layer_id,
      )
      refl
equals-parse h schema hp hr ha hf =
    let names = h.schema_name ++ separator ∷ h.version in
    let rest = h.group_id ++ separator ∷ names in
    rw
      (
        parse-append h.partition h.region h.account schema_tag rest schema hp refl hr ha refl,
        next_field-append h.group_id names (ground arith),
        next_field-append h.schema_name h.version (ground arith),
        tail_field_lem h.version,
        text_equal_refl h.partition,
        text_equal_refl h.region,
        text_equal_refl h.account,
        text_equal_refl h.group_id,
        text_equal_refl h.schema_name,
        text_equal_refl h.version,
      )
      refl
equals-parse h pipeline hp hr ha hf =
    rw
      (
        parse-append h.partition h.region h.account pipeline_tag h.pipeline_id pipeline hp refl hr
            ha refl,
        tail_field_lem h.pipeline_id,
        text_equal_refl h.partition,
        text_equal_refl h.region,
        text_equal_refl h.account,
        text_equal_refl h.pipeline_id,
      )
      refl
equals-parse h unknown hp hr ha hf = cc

-- The text of a name is parsed to an equal name, when its service is known and no field but the
-- last one of the service has a separator.
pub parse-to_string : (h : Hrn) → IsPlain h → equals (parse (to_string h)) h ≡ true
unfolding IsPlain to_string read_back
parse-to_string h (hp, hr, ha, hf) = equals-parse h h.service hp hr ha hf

text_equal→≡ : (s t : Text) → text_equal s t ≡ true → s ≡ t
unfolding text_equal
text_equal→≡ [] [] h = refl
text_equal→≡ [] (y ∷ t) h = cc
text_equal→≡ (x ∷ s) [] h = cc
text_equal→≡ (x ∷ s) (y ∷ t) h = ground (arith, text_equal→≡ s t)

equal_service-fields :
    (h g : Hrn) (service other : ServiceType)
    → h.region ≡ g.region
    → h.account ≡ g.account
    → equal_service h g service other ≡ true
    → service_fields h service ≡ service_fields g other
unfolding equal_service service_fields
equal_service-fields h g data_service data_service r a e = cc (
  r,
  a,
  text_equal→≡ h.catalog_id g.catalog_id (ground arith),
  text_equal→≡ h.layer_id g.layer_id (ground arith),
)
equal_service-fields h g schema schema r a e = cc (
  r,
  a,
  text_equal→≡ h.group_id g.group_id (ground arith),
  text_equal→≡ h.schema_name g.schema_name (ground arith),
  text_equal→≡ h.version g.version (ground arith),
)
equal_service-fields h g pipeline pipeline r a e =
    cc (r, a, text_equal→≡ h.pipeline_id g.pipeline_id e)
equal_service-fields h g unknown other r a e = cc
equal_service-fields h g data_service unknown r a e = cc
equal_service-fields h g data_service schema r a e = cc
equal_service-fields h g data_service pipeline r a e = cc
equal_service-fields h g schema unknown r a e = cc
equal_service-fields h g schema data_service r a e = cc
equal_service-fields h g schema pipeline r a e = cc
equal_service-fields h g pipeline unknown r a e = cc
equal_service-fields h g pipeline data_service r a e = cc
equal_service-fields h g pipeline schema r a e = cc

-- Names that compare equal have the same text.
pub equals-to_string : (h g : Hrn) → equals h g ≡ true → to_string h ≡ to_string g
unfolding equals to_string
equals-to_string h g e =
    let region = text_equal→≡ h.region g.region (ground arith) in
    let account = text_equal→≡ h.account g.account (ground arith) in
    cc (
      text_equal→≡ h.partition g.partition (ground arith),
      equal_service-fields h g h.service g.service region account (ground arith),
    )
