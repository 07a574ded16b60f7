-- ===== src/Client/Parse/RoundTrip.antt =====
-- A text of the form that `VirtualChannelOpenEvent` parses is read back field by field.
use seamlessrdp.Base.{ℕ, ◌^◌, ◌<◌, ◌≡◌, ◌≢◌, refl, ap, ◌∙◌, List, [], ◌∷◌, Bytes, All, arith, codes}
use seamlessrdp.Base.Int.{ℤ, pos, pos_part}
use seamlessrdp.Shell.Command.{equal}
use seamlessrdp.Vchannel.Format.{print_int}
use seamlessrdp.Client.Parse.Numbers.{cut, coordinate-print_int}
use seamlessrdp.Client.{WindowData, new_window_data, Tokenizer}
use seamlessrdp.Client.Parse.{
  Message, read_pos, read_value, read_field, read_fields, new_message, read_message,
}
use seamlessrdp.Client.Parse.Fields.{
  IsToken, Splits, Kind, window_created, window_destroyed, min_max, move_size, moving, name_of,
  Corners, print_place, named, print_message, IsValue, print_int-IsToken, name_of-IsValue,
  print_place-IsValue, named-IsToken,
}

keyword : (c : ℕ) (s : Bytes) → All (λ b. b ≢ b'=') (c ∷ s) → IsToken b'=' (c ∷ s)
keyword c s h = record { one = h; some_bytes = λ e. cc }

module _ (tokens : Tokenizer) (law : Splits tokens) where
  read_pos-print :
      (p : Corners) (w : WindowData)
      → pos_part p.x1 < 2 ^ 31
      → pos_part p.y1 < 2 ^ 31
      → pos_part p.x2 < 2 ^ 31
      → pos_part p.y2 < 2 ^ 31
      → read_pos tokens (print_place p) w
        ≡ record w { x1 = cut p.x1; y1 = cut p.y1; x2 = cut p.x2; y2 = cut p.y2 }
  unfolding read_pos
  read_pos-print p w h1 h2 h3 h4 =
      let t = λ (a : ℤ). print_int-IsToken b'~' a (omega arith) in
      rw
        (
          law b'~' (print_int p.x1) (print_int p.y1 ∷ print_int p.x2 ∷ print_int p.y2 ∷ []) (t p.x1)
              (t p.y1, (t p.x2, (t p.y2, tt))),
          coordinate-print_int p.x1 h1,
          coordinate-print_int p.y1 h2,
          coordinate-print_int p.x2 h3,
          coordinate-print_int p.y2 h4,
        )
        refl

  tokens-named :
      (name value : Bytes)
      → IsToken b'=' name
      → IsToken b'=' value
      → tokens b'=' (named name value) ≡ name ∷ value ∷ []
  tokens-named name value n v = law b'=' name (value ∷ []) n (v, tt)

  -- a type is not the name of a field
  read_value-name_of :
      (k : Kind) (value : Bytes) (m : Message) → read_value tokens (name_of k) value m ≡ m
  unfolding read_value equal
  read_value-name_of window_created value m = refl
  read_value-name_of window_destroyed value m = refl
  read_value-name_of min_max value m = refl
  read_value-name_of move_size value m = refl
  read_value-name_of moving value m = refl

  read_field-msg :
      (k : Kind) (m : Message)
      → read_field tokens (named (codes "MSG") (name_of k)) m
        ≡ record m { message_type = name_of k }
  unfolding read_field equal
  read_field-msg k m =
      rw
        (tokens-named (codes "MSG") (name_of k) (keyword _ _ (omega arith))
          (name_of-IsValue k).no_equals)
        (read_value-name_of k [] (record m { message_type = name_of k }))

  read_field-id :
      (id : Bytes) (m : Message)
      → IsValue id
      → read_field tokens (named (codes "ID") id) m ≡ record m { wid = record (m.wid) { id = id } }
  unfolding read_field read_value equal
  read_field-id id m v =
      rw (tokens-named (codes "ID") id (keyword _ _ (omega arith)) v.no_equals) refl

  read_field-title :
      (title : Bytes) (m : Message)
      → IsValue title
      → read_field tokens (named (codes "TITLE") title) m
        ≡ record m { wid = record (m.wid) { title = title } }
  unfolding read_field read_value equal
  read_field-title title m v =
      rw (tokens-named (codes "TITLE") title (keyword _ _ (omega arith)) v.no_equals) refl

  read_field-pos :
      (p : Corners) (m : Message)
      → read_field tokens (named (codes "POS") (print_place p)) m
        ≡ record m { wid = read_pos tokens (print_place p) m.wid }
  unfolding read_field read_value equal
  read_field-pos p m =
      rw
        (tokens-named (codes "POS") (print_place p) (keyword _ _ (omega arith))
          (print_place-IsValue p).no_equals)
        refl

  read_message-fields :
      (text : Bytes) (fs : List Bytes)
      → tokens b';' text ≡ fs
      → read_message tokens text ≡ read_fields tokens fs (new_message tokens)
  unfolding read_message
  read_message-fields text fs e = ap (λ gs. read_fields tokens gs (new_message tokens)) e

  -- With a tokenizer that splits a text at its delimiters, a text of the fields MSG, ID, TITLE and POS, in
  -- this order, for one of the types of message that the plug-in tells apart, with an id and a title
  -- that are not empty and hold neither "=" nor ";", and coordinates that fit an `int`, is read as its
  -- type, id, title and place, in which 0 stands for each coordinate below 0. Nothing in ServerExe
  -- sends such texts.
  pub read_message-print :
      (k : Kind) (id title : Bytes) (p : Corners)
      → IsValue id
      → IsValue title
      → pos_part p.x1 < 2 ^ 31
      → pos_part p.y1 < 2 ^ 31
      → pos_part p.x2 < 2 ^ 31
      → pos_part p.y2 < 2 ^ 31
      → read_message tokens (print_message k id title p) ≡ record {
        wid = record new_window_data {
          id = id;
          title = title;
          x1 = cut p.x1;
          y1 = cut p.y1;
          x2 = cut p.x2;
          y2 = cut p.y2;
        };
        message_type = name_of k;
        min_max_type = pos 0;
      }
  unfolding read_fields
  read_message-print k id title p vi vt h1 h2 h3 h4 =
      let w : WindowData = record new_window_data { id = id; title = title } in
      let m : Message = record (new_message tokens) { message_type = name_of k } in
      let m' : Message = record m { wid = record new_window_data { id = id } } in
      let m'' : Message = record m { wid = w } in
      let last : List Bytes = named (codes "POS") (print_place p) ∷ [] in
      let last_two : List Bytes = named (codes "TITLE") title ∷ last in
      let last_three : List Bytes = named (codes "ID") id ∷ last_two in
      read_message-fields (print_message k id title p)
        (named (codes "MSG") (name_of k) ∷ last_three)
        (law b';' (named (codes "MSG") (name_of k)) last_three
          (named-IsToken b'M' (codes "SG") (name_of k) (omega arith) (name_of-IsValue k))
          (
            named-IsToken b'I' (codes "D") id (omega arith) vi,
            (
              named-IsToken b'T' (codes "ITLE") title (omega arith) vt,
              (
                named-IsToken b'P' (codes "OS") (print_place p) (omega arith)
                    (print_place-IsValue p),
                tt,
              ),
            ),
          ))
      ∙ ap (read_fields tokens last_three) (read_field-msg k (new_message tokens))
      ∙ ap (read_fields tokens last_two) (read_field-id id m vi)
      ∙ ap (read_fields tokens last) (read_field-title title m' vt)
      ∙ ap (read_fields tokens []) (read_field-pos p m'')
      ∙ ap (λ v. record m { wid = v }) (read_pos-print p w h1 h2 h3 h4)
