-- ===== src/Host/MemFile.antt =====
-- A file in memory, as an instance of the laws of `Host.Files`.
use mqtgcalls.Prelude.{
  Bytes, Bool, true, false, [], ◌++◌, refl, take, drop, replicate, length-replicate,
}
use mqtgcalls.Host.Files.{FileApi, Heap, ClosesFiles, ReadsInOrder, WritesInOrder}

pub record MemFile : Type 0 where
  pub opened : Bool
  pub content : Bytes
  pub unread : Bytes

abbrev pub mem_api : FileApi MemFile
mem_api = record {
  not_opened = record { opened = false; content = []; unread = [] };
  is_open = λ f. f.opened;
  close = λ f. record f { opened = false };
  read = λ f n. (take n f.unread, record f { unread = drop n f.unread });
  write = λ f b. record f { content = f.content ++ b };
  rewind = λ f. record f { unread = f.content };
}

abbrev pub mem_heap : Heap
mem_heap = record { alloc = λ n. replicate n 0; length-alloc = λ n. length-replicate n 0 }

abbrev pub mem_closes : ClosesFiles mem_api
mem_closes = record { not_opened_lem = refl; close_lem = λ f. refl }

abbrev pub mem_reads : ReadsInOrder mem_api
mem_reads = record {
  rest = λ f. f.unread;
  whole = λ f. f.content;
  read_lem = λ f n h. refl;
  rest-read = λ f n h. refl;
  is_open-read = λ f n h. h;
  whole-read = λ f n. refl;
  rest-rewind = λ f h. refl;
  is_open-rewind = λ f h. h;
  whole-rewind = λ f h. refl;
}

abbrev pub mem_writes : WritesInOrder mem_api
mem_writes = record {
  written = λ f. f.content;
  write_lem = λ f b h. refl;
  is_open-write = λ f b h. h;
}

-- An open file that has been read up to the start.
abbrev pub mem_file : Bytes → MemFile
mem_file b = record { opened = true; content = b; unread = b }
