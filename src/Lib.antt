-- ===== src/Lib.antt =====
-- Verification library of trn, a threaded newsreader.
--
-- What is modelled is the part of trn that works on text and on tables in memory: the scanning
-- of strings, the comparison and copying of strings, the patterns for newsgroup names, the
-- character sets of article text, the hash tables that hold articles, subjects and newsgroups,
-- the numbered lists that hold articles and newsgroups, the reading of URLs, the decoding of
-- uuencoded, base64 and quoted-printable files, the searches for strings and regular
-- expressions, the marks of read articles, the memory pools of the scoring code, the substitutes
-- for Latin-1 characters, the texts for times, and the lines of a .newsrc file, which say what
-- articles of a newsgroup have been read. The scanning loops serve all the rest. The newsgroup
-- functions read and write lines with them; the numbers in a line change how many articles of
-- the newsgroup count as unread, which the selectors show.
--
-- Files:
--   Prelude, Prelude.Tests, Prelude.Lists, Ranges, Int: helpers. Int is C's `long`, which the model
--     takes as unbounded.
--   StringAlgos (string-algos.h): empty, skip_eq, skip_ne, skip_digits, skip_space, skip_non_space,
--     skip_alpha, skip_non_alpha, is_hor_space, skip_hor_space. A null pointer is `none`; a string
--     is the list of its bytes up to the terminator, and a pointer into it is a suffix.
--   Util (util.cpp; common.h): text2secs and secs2text; `items` of secs2text, which it may read before
--     it is set, is an argument.
--   Util2, Util2.CaseMap (util2.cpp): safecpy, cpytill, in_string, casemap, strcasecmp, strncasecmp.
--   Wildmat (wildmat.cpp): wildmat and DoMatch. The cases of the switch of DoMatch are functions of
--     their own; a read behind the pattern's terminator is the verdict `overrun`.
--   Utf.Charset, Utf.Decode, Utf.Encode, Utf.Text (utf.cpp, utf.h): the tables and the static state
--     s_gs as a record; byte_length_at, code_point_at, visual_width_at, insert_utf8_at (write_utf8),
--     insert_unicode_at (write_unicode), at_norm_char, put_char_adv, create_utf8_copy,
--     visual_length_of, visual_length_between, terminate_string_at_visual_index, utf_init. A value
--     that the code leaves unset is `none`.
--   HashTable (hash.cpp): hashcreate, hashdestroy, hashstore, hashdelete, hashfetch, hashstorelast,
--     hashwalk, hashfind, hash, healloc, hefree. A chain is a list of entries, a pointer to a link is
--     a chain and a position, and the free list is its length. The call of finalize for an invalid
--     table is `none`.
--   Newsrc.Numbers, Newsrc.Edit, Newsrc.Groups, Newsrc.Handlers (rcln.cpp, ngdata.cpp): atol and the
--     printing of numbers, then addartnum, was_read_group, set_toread, checkexpired, catch_up and
--     getngsize. NGDATA is the record NgData, the counters g_newsgroup_toread, g_missing_count,
--     g_ng_min_toread and g_paranoid are the record Counters. The memory that addartnum allocates is its
--     size. find_actgrp, which asks the server or
--     the active file, is a parameter.
--   Lists, Lists.Moves (list.cpp, list.h): new_list, listnum2listitem, existing_listnum,
--     next_listitem, prev_listitem, walk_list, listitem2listnum. A list is its nodes in order, `recent`
--     a position among them; an item's pointer is its node's address and an index.
--   Url (url.cpp): parse_url, the static buffers as a record. A text that is written past the end of
--     its buffer is `none`.
--   Uudecode, Uudecode.Prescan, Uudecode.Stream (uudecode.cpp): uudecodeline, uue_prescan, and
--     uudecode as a step on each line by decode_state. Written files are values; decode_fix_fname,
--     whether fopen succeeds, and the test that ends an article's part are parameters, and so is what
--     the variable `lastline` holds when the next round declares it again.
--   Mime (mime.cpp): qp_decodestring, qp_decode, b64_decodestring, b64_decode. A FILE is the bytes to
--     be read from it; whether fopen succeeds is a parameter.
--   Search, Search.Compile, Search.Execute (search.cpp, search.h): search_init, case_fold, compile,
--     execute, advance, backref, cclass, getbracket. The buffer of instructions is a list of
--     alternatives, the goto to defchar a function, and a byte of the pattern one step, by what the
--     byte is read as. A read or a write outside of a buffer is a value of its own.
--   Bits, Bits.Marks (bits.cpp; cache.h): bits_to_rc, with the list of articles as the numbers that
--     have an item; onemore, oneless, oneless_artnum, onemissing, unmark_as_read, set_read,
--     delay_unmark, mark_as_read, mark_missing_articles and check_first on the record Marking of
--     articles, subjects and counters. One flag stands for the one that g_sel_mask names.
--   Charsubst (charsubst.cpp): Latin1toASCII and strcharsubst. What is written is the bytes before
--     the terminator, and the limit is not negative.
--   Mempool (mempool.cpp, mempool.h): mp_init, mp_alloc_frag, mp_free_frag, mp_savestr, mp_malloc,
--     mp_free. A pointer into a pool is a fragment and a place in it.
--   The modules below these hold proofs, and the modules called Examples inputs and tests.
--
-- Fuel: the loops that advance by more than a byte at a time run on the length of their text. It is
-- enough since each round takes a byte at least; where a loop could run out, the model says so by a
-- value of its own (`out_of_fuel`, `never_ended`, `no_fuel`, `none`).
--
-- Bounds: `char` is signed and eight bits wide. The sum of a hash is taken modulo 2 ^ 32. The length
-- of safecpy counts down in an `int` as the code does. Numbers of articles do not wrap,
-- and atoi keeps the low 32 bits of what atol reads, which the model takes as unbounded.
--
-- Not modelled: terminal, files, processes and the network; the article threads and the
-- selectors; reading through readart in mime.cpp; how the buffers of search.cpp grow, and
-- brackets that an earlier expression left there; the texts that getngsize keeps for the
-- display; the writing of the newsrc files behind catch_up.
pub mod Prelude
pub mod Ranges
pub mod Int
pub mod StringAlgos
pub mod Bits
pub mod Mempool
pub mod Charsubst
pub mod Mime
pub mod Search
pub mod Util
pub mod Util2
pub mod Wildmat
pub mod Utf
pub mod HashTable
pub mod Newsrc
pub mod Url
pub mod Lists
pub mod Uudecode
