-- ===== src/Tcp/Writer/Packets.antt =====
-- The packets of the StreamingWriter as lists of fields.
use chwire.Prelude.{
  ℕ, ◌*◌, ◌≤◌, ◌≡◌, ap, ◌∙◌, leb, if◌then◌else◌, Bool, List, [], ◌∷◌, ◌++◌, take, All, arith,
  le→leb,
}
use chwire.Prelude.Text.{codes}
use chwire.Prelude.Result.{good, bad, Error}
use chwire.Prelude.Outcome.{ok, err}
use chwire.Io.Utf8.{Utf8}
use chwire.Io.VarInt.Encode.{leb128}
use chwire.Io.Writer.{BufferWriter, reset, finish, write_varint}
use chwire.Io.Writer.Contents.{
  IsValid, contents, finish-contents, reset_offset, write_varint-Appends,
}
use chwire.Tcp.ClientPacketId
use chwire.Tcp.Version
use chwire.Tcp.With
use chwire.Tcp.Writer.{
  ◌⨟◌, max_retained_writer_capacity, flush, Setting, Param, param_literal, hello_writes,
  encode_hello, addendum_writes, encode_addendum, client_info_writes, settings_writes, stage_writes,
  params_writes, query_writes, encode_query, encode_cancel,
}
use chwire.Tcp.Writer.Fields.{
  Field, varint, text, byte, word64, wire, Fits, Emits, Emits-skip, Emits-varint, Emits-text,
  Emits-byte, Emits-word64, Emits-seq, Emits-since,
}

-- A writer between two packets.
pub record IsEmpty (w : BufferWriter) : Type 0 where
  pub valid : IsValid w
  pub nothing : contents w ≡ []

pub flush-IsEmpty : (w : BufferWriter) → IsEmpty (flush w).1
unfolding flush
flush-IsEmpty w = record {
  valid = omega (arith, reset_offset max_retained_writer_capacity w);
  nothing =
      ap (λ (t : ℕ). take t (reset max_retained_writer_capacity w).buffer)
        (reset_offset max_retained_writer_capacity w);
}

abbrev pub since_fields : ℕ → ℕ → List Field → List Field
since_fields gate revision fs = if leb gate revision then fs else []

unfoldable pub hello_fields : List ℕ → List ℕ → List ℕ → List Field
hello_fields database user pass =
    varint ClientPacketId.hello
    ∷ text (codes "chwire-client 0.1.0")
    ∷ varint Version.major
    ∷ varint Version.minor
    ∷ varint Version.tcp_protocol
    ∷ text database
    ∷ text user
    ∷ text pass
    ∷ []

unfoldable pub addendum_fields : ℕ → List Field
addendum_fields revision =
    since_fields With.quota_key revision (text [] ∷ [])
    ++ (since_fields With.chunked_packets revision
          (text (codes "notchunked") ∷ text (codes "notchunked") ∷ [])
        ++ (since_fields With.versioned_parallel_replicas_protocol revision
              (varint Version.parallel_replicas_protocol ∷ [])
            ++ []))

unfoldable pub client_info_fields : List ℕ → ℕ → ℕ → List Field
client_info_fields qid revision now =
    varint ClientPacketId.query
    ∷ text qid
    ∷ byte 1
    ∷ text []
    ∷ text []
    ∷ text (codes "0.0.0.0:0")
    ∷ (since_fields With.initial_query_start_time revision (word64 (now * 1000) ∷ [])
        ++ (byte 1
            ∷ text (codes "chwire-client")
            ∷ text (codes "localhost")
            ∷ text (codes "ClickHouse")
            ∷ varint Version.major
            ∷ varint Version.minor
            ∷ varint Version.tcp_protocol
            ∷ (since_fields With.quota_key_in_client_info revision (text [] ∷ [])
                ++ (since_fields With.distributed_depth revision (varint 1 ∷ [])
                    ++ (since_fields With.version_patch revision (varint 0 ∷ [])
                        ++ (since_fields With.opentelemetry revision (byte 0 ∷ [])
                            ++ (since_fields With.parallel_replicas revision
                                  (varint 0 ∷ varint 0 ∷ varint 0 ∷ [])
                                ++ (since_fields With.query_and_line_numbers revision
                                      (varint 0 ∷ varint 0 ∷ [])
                                    ++ (since_fields With.jwt_in_interserver revision (byte 0 ∷ [])
                                        ++ [])))))))))

unfoldable pub settings_fields : ℕ → List Setting → List Field
settings_fields revision [] = []
settings_fields revision ((key, val) ∷ settings) =
    text key
    ∷ (since_fields With.settings_serialized_as_strings revision (varint 0 ∷ [])
        ++ (text val ∷ settings_fields revision settings))

unfoldable pub stage_fields : ℕ → Bool → List ℕ → List Field
stage_fields revision compression sql =
    text []
    ∷ (since_fields With.externally_granted_roles revision (text [] ∷ [])
        ++ (since_fields With.interserver_secret revision (text [] ∷ [])
            ++ (varint 2 ∷ varint (if compression then 1 else 0) ∷ text sql ∷ [])))

unfoldable pub params_fields : List Param → List Field
params_fields [] = text [] ∷ []
params_fields ((key, val) ∷ params) =
    text key ∷ varint 2 ∷ text (param_literal val) ∷ params_fields params

unfoldable pub query_fields : List ℕ → List ℕ → ℕ → ℕ → List Setting → Bool → List Field
unfolding client_info_fields settings_fields stage_fields
query_fields qid sql revision now settings compression =
    client_info_fields qid revision now
    ++ (settings_fields revision settings ++ stage_fields revision compression sql)

module _ (u : Utf8) where
  hello-Emits :
      (database user pass : List ℕ)
      → Emits u (hello_writes u database user pass) (hello_fields database user pass)
  unfolding hello_writes hello_fields
  hello-Emits database user pass = search (Emits-varint, Emits-text, Emits-skip) depth 20

  addendum-Emits : (revision : ℕ) → Emits u (addendum_writes u revision) (addendum_fields revision)
  unfolding addendum_writes addendum_fields
  addendum-Emits revision = search (Emits-since, Emits-varint, Emits-text, Emits-skip) depth 20

  client_info-Emits :
      (qid : List ℕ) (revision now : ℕ)
      → Emits u (client_info_writes u qid revision now) (client_info_fields qid revision now)
  unfolding client_info_writes client_info_fields
  client_info-Emits qid revision now =
      search (Emits-since, Emits-varint, Emits-text, Emits-byte, Emits-word64, Emits-skip) depth 40

  settings-Emits :
      (revision : ℕ) (settings : List Setting)
      → Emits u (settings_writes u revision settings) (settings_fields revision settings)
  unfolding settings_writes settings_fields
  settings-Emits revision [] = Emits-skip u
  settings-Emits revision ((key, val) ∷ settings) = Emits-text u key (
      Emits-since u With.settings_serialized_as_strings revision (Emits-varint u 0 (Emits-skip u))
        (Emits-text u val (settings-Emits revision settings)))

  stage-Emits :
      (revision : ℕ) (compression : Bool) (sql : List ℕ)
      → Emits u (stage_writes u revision compression sql) (stage_fields revision compression sql)
  unfolding stage_writes stage_fields
  stage-Emits revision compression sql =
      search (Emits-since, Emits-varint, Emits-text, Emits-skip) depth 20

  params-Emits : (params : List Param) → Emits u (params_writes u params) (params_fields params)
  unfolding params_writes params_fields
  params-Emits [] = Emits-text u [] (Emits-skip u)
  params-Emits ((key, val) ∷ params) =
      Emits-text u key (Emits-varint u 2 (Emits-text u (param_literal val) (params-Emits params)))

  query-Emits :
      (qid sql : List ℕ) (revision now : ℕ) (settings : List Setting) (compression : Bool)
      → Emits u
          (query_writes u qid sql revision now settings compression)
          (query_fields qid sql revision now settings compression)
  unfolding query_writes query_fields
  query-Emits qid sql revision now settings compression =
      Emits-seq u (client_info-Emits qid revision now)
        (Emits-seq u (settings-Emits revision settings) (stage-Emits revision compression sql))

  -- Between two packets the bytes of a flush are those of the fields.
  pub flushed :
      {f : BufferWriter → BufferWriter} {fs : List Field} (w : BufferWriter)
      → Emits u f fs
      → IsEmpty w
      → All (Fits u) fs
      → finish (f w) ≡ wire u fs
  flushed {f} {fs} w e h p =
      finish-contents (f w)
      ∙ (e.at w h.valid p).appended
      ∙ ap (λ (t : List ℕ). t ++ wire u fs) h.nothing

  -- On a writer that holds nothing, and where the credentials fit, `encodeHello` sends the packet
  -- id, the client's name and version, the protocol version and the three credentials, in this
  -- order, and leaves the writer empty.
  pub encode_hello-wire :
      (database user pass : List ℕ) (w : BufferWriter)
      → IsEmpty w
      → All (Fits u) (hello_fields database user pass)
      → ((encode_hello u database user pass w).0 ≡ wire u (hello_fields database user pass))
        × IsEmpty (encode_hello u database user pass w).1
  unfolding encode_hello
  encode_hello-wire database user pass w h p = (
    flushed w (hello-Emits database user pass) h p,
    flush-IsEmpty (hello_writes u database user pass w),
  )

  -- On a writer that holds nothing, `encodeAddendum` sends what the negotiated revision asks for,
  -- the quota key, the refusal of chunked packets for both directions, the parallel replicas
  -- version, and leaves the writer empty.
  pub encode_addendum-wire :
      (revision : ℕ) (w : BufferWriter)
      → IsEmpty w
      → All (Fits u) (addendum_fields revision)
      → ((encode_addendum u revision w).0 ≡ wire u (addendum_fields revision))
        × IsEmpty (encode_addendum u revision w).1
  unfolding encode_addendum
  encode_addendum-wire revision w h p =
      (flushed w (addendum-Emits revision) h p, flush-IsEmpty (addendum_writes u revision w))

  module _ (qid sql : List ℕ) (revision now : ℕ) (settings : List Setting) (compression : Bool)
      (w : BufferWriter) (h : IsEmpty w) where
    abbrev sent : List Field
    sent = query_fields qid sql revision now settings compression

    abbrev writes : BufferWriter → BufferWriter
    writes = query_writes u qid sql revision now settings compression

    -- From a revision with parameters on, on a writer that holds nothing, and where every field
    -- fits its width, `encodeQuery` sends the client info, the settings, the stage, the query and
    -- the serialised parameters, and leaves the writer empty.
    pub encode_query-wire :
        (params : List Param)
        → With.parameters ≤ revision
        → All (Fits u) (sent ++ params_fields params)
        → (w' : BufferWriter) × (encode_query u qid sql revision now settings compression
              (good params)
              w
            ≡ ok (wire u (sent ++ params_fields params)) w')
          × IsEmpty w'
    unfolding encode_query
    encode_query-wire params new_enough p = (
      (flush ((writes ⨟ params_writes u params) w)).1,
      rw (le→leb With.parameters revision new_enough) (
          ap (λ (t : List ℕ). ok t (flush ((writes ⨟ params_writes u params) w)).1)
            (flushed w
              (Emits-seq u (query-Emits qid sql revision now settings compression)
                (params-Emits params))
              h p)),
      flush-IsEmpty ((writes ⨟ params_writes u params) w),
    )

    -- From a revision with parameters on, where the parameters cannot be serialised and every
    -- field fits, `encodeQuery` throws and what it has written stays: the next packet, here a
    -- cancel, is sent behind it.
    pub encode_query_leftover :
        (params_error : Error)
        → With.parameters ≤ revision
        → All (Fits u) sent
        → (w' : BufferWriter) × (encode_query u qid sql revision now settings compression
              (bad params_error)
              w
            ≡ err params_error w')
          × ((encode_cancel u w').0 ≡ wire u sent ++ leb128 ClientPacketId.cancel)
    unfolding encode_query encode_cancel flush
    encode_query_leftover params_error new_enough p =
        let a = (query-Emits qid sql revision now settings compression).at w h.valid p in
        (
          writes w,
          rw (le→leb With.parameters revision new_enough),
          finish-contents (write_varint ClientPacketId.cancel (writes w))
              ∙ (write_varint-Appends (writes w) a.valid ClientPacketId.cancel
                  (omega arith)).appended
              ∙ ap (λ (t : List ℕ). t ++ leb128 ClientPacketId.cancel)
                  (a.appended ∙ ap (λ (t : List ℕ). t ++ wire u sent) h.nothing),
        )
