-- ===== src/Vchannel/Open/Opened.antt =====
-- What opening the channel leaves.
use seamlessrdp.Base.{◌≡◌, refl, Bool, true, false, ◌&&◌, length, arith}
use seamlessrdp.Vchannel.Buffer.{Buffer, IsValid, buffer_size}
use seamlessrdp.Vchannel.Open.{
  Handles, Creates, Opening, bail_out, vchannel_close, vchannel_is_open, format, vchannel_open,
  create_mutex, create_serial, create_map_file, map_view, create_events,
}

abbrev pub creates_all : Creates → Bool
creates_all o =
    o.channel && (o.mutex && (o.serial && (o.map_file && (o.view && (o.evrd && o.evwr)))))

abbrev pub all_open : Handles
all_open = record {
  channel = true;
  mutex = true;
  serial = true;
  map_file = true;
  buffer = true;
  evrd = true;
  evwr = true;
}

format-IsValid : (b : Buffer) → length b.bytes ≡ buffer_size → IsValid (format b)
format-IsValid b h = record {
  storage = h;
  small = omega arith;
  writer_in = omega arith;
  reader_in = omega arith;
}

-- What is to hold of an opening, where `all` tells whether everything can be created.
pub record IsOpening (all : Bool) (b : Buffer) (r : Opening) : Type 0 where
  pub answered : r.ok ≡ all
  pub opened :
      all ≡ true → (r.handles ≡ all_open) × (IsValid r.memory × (r.memory.pr ≡ r.memory.pw))
  pub shut : all ≡ false → (vchannel_is_open r.handles ≡ false) × (r.memory ≡ b)
  pub released : all ≡ false → (r.handles.mutex ≡ false) × (r.handles.buffer ≡ false)

IsOpening-bail_out : (h : Handles) (b : Buffer) → IsOpening false b (bail_out h b)
unfolding vchannel_close
IsOpening-bail_out h b = record {
  answered = refl;
  opened = λ e. absurd (ground arith);
  shut = λ e. (refl, refl);
  released = λ e. (refl, refl);
}

IsOpening-format :
    (b : Buffer)
    → length b.bytes ≡ buffer_size
    → IsOpening true b (record { ok = true; handles = all_open; memory = format b })
IsOpening-format b storage = record {
  answered = refl;
  opened = λ e. (refl, (format-IsValid b storage, refl));
  shut = λ e. absurd (ground arith);
  released = λ e. absurd (ground arith);
}

IsOpening-answers :
    (channel mutex serial map_file view evrd evwr : Bool) (h : Handles) (b : Buffer)
    → length b.bytes ≡ buffer_size
    → let o : Creates = record {
      channel = channel;
      mutex = mutex;
      serial = serial;
      map_file = map_file;
      view = view;
      evrd = evrd;
      evwr = evwr;
    } in
      IsOpening (creates_all o) b (vchannel_open o (record h { channel = false }) b)
unfolding vchannel_open create_mutex create_serial create_map_file map_view create_events
IsOpening-answers false m s f v r w h b storage = IsOpening-bail_out h b
IsOpening-answers true false s f v r w h b storage = IsOpening-bail_out h b
IsOpening-answers true true false f v r w h b storage =
    IsOpening-bail_out (record h { serial = false }) b
IsOpening-answers true true true false v r w h b storage =
    IsOpening-bail_out (record h { serial = true }) b
IsOpening-answers true true true true false r w h b storage =
    IsOpening-bail_out (record h { serial = true }) b
IsOpening-answers true true true true true false w h b storage =
    IsOpening-bail_out (record h { serial = true; evrd = false; evwr = w }) b
IsOpening-answers true true true true true true false h b storage =
    IsOpening-bail_out (record h { serial = true; evrd = true; evwr = false }) b
IsOpening-answers true true true true true true true h b storage = IsOpening-format b storage

-- Opening a closed channel succeeds exactly if every object can be created. Then all handles are there
-- and the buffer is well-formed and empty; if not, the channel is closed, and so are the mutex and the
-- buffer, and the shared memory is as it was.
pub IsOpening-vchannel_open :
    (o : Creates) (h : Handles) (b : Buffer)
    → h.channel ≡ false
    → length b.bytes ≡ buffer_size
    → IsOpening (creates_all o) b (vchannel_open o h b)
IsOpening-vchannel_open o h b closed storage =
    rw closed
      (IsOpening-answers o.channel o.mutex o.serial o.map_file o.view o.evrd o.evwr h b storage)
