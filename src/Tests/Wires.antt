-- ===== src/Tests/Wires.antt =====
-- The theorems on the codecs, at a transport that prefixes data with its length in one number.
use pyrsia.Base.{
  ℕ, ◌≡◌, refl, true, false, [], ◌∷◌, ◌++◌, Bytes, codes, length, take, drop, length-append,
  take-append_length, drop-append_length, ltb, if◌then◌else◌, is_utf8, arith,
}
use pyrsia.Outcome.{Outcome, ok, err, panicked, ◌>>=◌}
use pyrsia.TransparencyLog.Types.{docker}
use pyrsia.Network.Codecs.{IoError, unexpected_eof, invalid_data, Wire, IsReliable}
use pyrsia.Network.Codecs.Artifact
use pyrsia.Network.Codecs.Build
use pyrsia.Network.Codecs.BuildStatus
use pyrsia.Network.Codecs.BuildStatus.{Bincode}
use pyrsia.Network.Codecs.Blockchain
use pyrsia.Network.Codecs.RoundTrip.{IsFrame, read_request-write_request}
use pyrsia.Network.Codecs.Panics.{read_request-panicked}

abbrev pub frame : Bytes → Bytes
frame bytes = length bytes ∷ bytes

abbrev read_framed : Bytes → ℕ → Outcome IoError (Bytes × Bytes)
read_framed [] max = err unexpected_eof
read_framed (n ∷ io) max =
    if ltb max n
    then err invalid_data
    else if ltb (length io) n
    then err unexpected_eof
    else ok (take n io, drop n io)

abbrev read_first : Bytes → Outcome IoError (ℕ × Bytes)
read_first [] = err unexpected_eof
read_first (n ∷ io) = ok (n, io)

abbrev pub wire : Wire
wire = record {
  read_length_prefixed = read_framed;
  read_varint = read_first;
  read = λ io n. ok (take n io, drop n io);
  write_length_prefixed = λ out bytes. ok (out ++ frame bytes);
  close = λ out. ok tt;
}

pub wire-IsReliable : IsReliable wire frame
wire-IsReliable = record {
  writes = λ out bytes. refl;
  closes = λ out. refl;
  reads = λ bytes rest max fits. ground (
    arith,
    length-append bytes rest,
    take-append_length bytes rest,
    drop-append_length bytes rest,
  );
  refuses = λ bytes rest max over. ground arith;
  prefixes = λ bytes rest. refl;
}

abbrev request : Build.BuildRequest
request = record { package_type = docker; package_specific_id = codes "alpine:3.16" }

is_frame : IsFrame request.package_specific_id
unfolding is_utf8
is_frame = (ground arith, ground arith, refl)

read_request-write_request_example :
    (Build.write_request wire [] request >>= λ sent. Build.read_request wire (sent ++ codes "rest"))
    ≡ ok (request, codes "rest")
read_request-write_request_example =
    read_request-write_request wire frame wire-IsReliable request (codes "rest") is_frame

-- A continuation byte with nothing before it
abbrev no_text : Bytes
no_text = 0x80 ∷ []

is_no_text : is_utf8 no_text ≡ false
unfolding is_utf8
is_no_text = refl

read_request-panicked_example :
    (Artifact.read_request wire (frame no_text ++ []) ≡ panicked)
    × (Build.read_request wire (frame no_text ++ []) ≡ panicked)
    × (Build.read_response wire (frame no_text ++ []) ≡ panicked)
    × (BuildStatus.read_request wire (frame no_text ++ []) ≡ panicked)
read_request-panicked_example =
    read_request-panicked wire frame wire-IsReliable no_text [] (ground arith) (ground arith)
      is_no_text

abbrev empty_artifact : Artifact.ArtifactResponse
empty_artifact = record { data_bytes = [] }

abbrev question : Blockchain.BlockchainRequest
question = record { message = 4 ∷ [] }

abbrev answer : Blockchain.BlockchainResponse
answer = record { message = 0 ∷ [] }

-- The text of a multi-byte character, an overlong form, a surrogate and a number past the last.
utf8_forms :
    (is_utf8 (0xe2 ∷ 0x82 ∷ 0xac ∷ []) ≡ true)
    × (is_utf8 (0xc0 ∷ 0x80 ∷ []) ≡ false)
    × (is_utf8 (0xed ∷ 0xa0 ∷ 0x80 ∷ []) ≡ false)
    × (is_utf8 (0xf4 ∷ 0x90 ∷ 0x80 ∷ 0x80 ∷ []) ≡ false)
unfolding is_utf8
utf8_forms = (refl, refl, refl, refl)
