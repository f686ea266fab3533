-- ===== src/Client/Hrn/Tests.antt =====
-- Concrete names of resources.
use here_data_sdk_cpp.Common.{◌≡◌, refl, true, [], ◌∷◌}
use here_data_sdk_cpp.Client.Hrn.{
  Hrn, no_hrn, data_service, to_string, parse, equals, text_equal, equal_service,
}
use here_data_sdk_cpp.Client.Hrn.RoundTrip.{plain, plain_fields, IsPlain, parse-to_string}

-- "hrn:a:data::r:c:1:2", whose layer has a separator.
abbrev layer_hrn : Hrn
layer_hrn = record no_hrn {
  partition = 97 ∷ [];
  service = data_service;
  account = 114 ∷ [];
  catalog_id = 99 ∷ [];
  layer_id = 49 ∷ 58 ∷ 50 ∷ [];
}

layer_hrn-IsPlain : IsPlain layer_hrn
unfolding IsPlain plain_fields plain
layer_hrn-IsPlain = (refl, refl, refl, refl)

layer_hrn-equals : equals layer_hrn (record layer_hrn { version = 57 ∷ [] }) ≡ true
unfolding equals equal_service text_equal
layer_hrn-equals = refl

parse-to_string_example : equals (parse (to_string layer_hrn)) layer_hrn ≡ true
parse-to_string_example = parse-to_string layer_hrn layer_hrn-IsPlain
