-- ===== src/Protocol/Anchors/Tests.antt =====
-- Canonical bodies of anchor keys, and signatures of a wrong length.
use revaulter.Base.{bytes, same, ◌≡◌, refl, some, []}
use revaulter.Base.Results.{err}
use revaulter.Utils.Base64.{decode, read_digits, decode_digit, bytes_of}
use revaulter.Protocol.Anchors.{
  cut, value_of, values_of, parse_p384_body, validate_p384, bad_crv, wrong_key, wrong_lines,
  decode_base64_signature, bad_signature,
}

cut_first : cut b'=' (bytes "k=v=w") ≡ some (bytes "k", bytes "v=w")
unfolding cut
cut_first = refl

wrong_order : parse_p384_body (bytes "kty=EC\ncrv=P-384\nx=a\ny=b") ≡ err wrong_key
unfolding parse_p384_body values_of value_of cut same
wrong_order = refl

trailing_line : parse_p384_body (bytes "crv=P-384\nkty=EC\nx=a\ny=b\n") ≡ err wrong_lines
unfolding parse_p384_body values_of
trailing_line = refl

other_curve :
    validate_p384 (record {
      kty = bytes "EC";
      crv = bytes "P-256";
      x = bytes "a";
      y = bytes "b";
      d = [];
      kid = [];
      alg = [];
      key_use = [];
    })
    ≡ some bad_crv
unfolding validate_p384 same
other_curve = refl

short_signature : decode_base64_signature (bytes "AAAA") 96 ≡ err bad_signature
unfolding decode_base64_signature decode read_digits decode_digit bytes_of
short_signature = refl
