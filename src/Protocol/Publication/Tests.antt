-- ===== src/Protocol/Publication/Tests.antt =====
-- A payload, its canonical body, and its window of time.
use revaulter.Base.{Text, pos, negsuc, bytes, same, ◌≡◌, refl, true, false, some}
use revaulter.Protocol.Timeouts.{atoi, read_decimal}
use revaulter.Protocol.Anchors.{cut, value_of, values_of}
use revaulter.Protocol.Publication.{
  Payload, decimal, format_int, canonical_body, parse_payload, is_recent,
}

abbrev payload : Payload
payload = record {
  user_id = bytes "alice";
  algorithm = bytes "ES256";
  key_label = bytes "disk";
  key_id = bytes "k1";
  wrapped_key_epoch = pos 1;
  created_at = pos 1700000000;
  v = pos 1;
}

abbrev body : Text
body =
    bytes
      "userId=alice\nalgorithm=ES256\nkeyLabel=disk\nkeyId=k1\nwrappedKeyEpoch=1\ncreatedAt=1700000000\nv=1"

canonical : canonical_body payload ≡ body
unfolding canonical_body format_int decimal
canonical = refl

parsed : parse_payload body ≡ some payload
unfolding parse_payload values_of value_of cut same atoi read_decimal
parsed = refl

least : format_int (negsuc 9223372036854775807) ≡ bytes "-9223372036854775808"
unfolding format_int decimal
least = refl

in_window : is_recent 1700000120000000000 120000000000 (pos 1700000000) ≡ true
unfolding is_recent
in_window = refl

too_late : is_recent 1700000120000000001 120000000000 (pos 1700000000) ≡ false
unfolding is_recent
too_late = refl
