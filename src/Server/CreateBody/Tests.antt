-- ===== src/Server/CreateBody/Tests.antt =====
-- A body that is put in normal form, and the theorem at it.
use revaulter.Base.{Text, bytes, same, ◌≡◌, refl, []}
use revaulter.Base.Results.{ok, err}
use revaulter.Utils.Base64.{
  encode, decode, digits_of, encode_digit, decode_digit, read_digits, bytes_of, trim_padding,
  decode_base64_string,
}
use revaulter.Protocol.Keys.{validate_public, decode_b64url_256}
use revaulter.Protocol.Algorithms.{is_supported_encryption_algorithm, to_lower}
use revaulter.Protocol.Labels.{normalize_key_label}
use revaulter.Server.Sample.{jwk}
use revaulter.Server.CreateBody.{
  RequestCreateBody, validate_v2_create_body, check_algorithm, normalize_base64, invalid_operation,
}
use revaulter.Server.CreateBody.Normal.{create_body_again}

-- 32 bytes in base64
abbrev coordinate : Text
coordinate = bytes "AAAAAAAAAAAAAAAAAAAAAAAAAAAAAAAAAAAAAAAAAAA"

abbrev body : RequestCreateBody
body = record {
  key_label = bytes "disk";
  algorithm = bytes "A256GCM";
  timeout = [];
  note = [];
  request_enc_alg = bytes "ecdh-p256+mlkem768+a256gcm";
  cli_ephemeral_public_key = record jwk { x = coordinate; y = coordinate };
  mlkem_ciphertext = bytes "bQ==";
  encrypted_payload_nonce = bytes "b/";
  encrypted_payload = bytes "Y/8=";
}

abbrev normal : RequestCreateBody
normal = record body {
  mlkem_ciphertext = bytes "bQ";
  encrypted_payload_nonce = bytes "bw";
  encrypted_payload = bytes "Y_8";
}

bad_operation : validate_v2_create_body (bytes "open") body ≡ err invalid_operation
unfolding validate_v2_create_body same
bad_operation = refl

rewritten : validate_v2_create_body (bytes "encrypt") body ≡ ok normal
unfolding validate_v2_create_body check_algorithm normalize_base64 decode_base64_string trim_padding
    decode encode digits_of encode_digit decode_digit read_digits bytes_of validate_public
    decode_b64url_256 is_supported_encryption_algorithm to_lower same normalize_key_label
rewritten = refl

create_body_again_example : validate_v2_create_body (bytes "encrypt") normal ≡ ok normal
create_body_again_example =
    create_body_again (bytes "encrypt") body normal rewritten (λ e. cc) (λ e. cc) (λ e. cc)
