-- ===== src/Lib.antt =====
-- This library models fpmurphy/UEFI-Utilities, a set of small UEFI tools in C, and proves what the
-- parts with logic of their own compute. Each tool is a program by itself; they share no state but
-- the firmware's variables.
--
-- listcerts prints the certificates of the Secure Boot variables. Its heart is a BER decoder driven by
-- byte code, which asn1_compiler makes from an ASN.1 grammar; action functions get each value, look
-- object identifiers up and print them.
--   Ber          listcerts/asn1_ber_decoder.c with asn1_ber_bytecode.h and asn1.h.
--                asn1_find_indefinite_length is Ber/Indefinite (find_indefinite_length, one round of
--                its loop next_tag); Ber/Indefinite/Element is the grammar of BER as a specification.
--                asn1_ber_decoder is Ber/Decoder: its variables are the record State, a round from the
--                label next_op is step, matching a tag is match_tag, match_length and match_cons, the
--                switch is exec_case. The actions are a parameter that sees all earlier calls.
--   Oid          listcerts/oid_registry.c and .h, oid_registry_data.h: the tables, Lookup_OID
--                (lookup_oid) and Sprint_OID (sprint_oid), with the encoding of X.690 (Oid/Dotted) as
--                the specification.
--   Grammar      listcerts/asn1_compiler.c. Tables, Directives, Lexer: enum token_type, token_to_tag,
--                directives, directive_compare and the loop of tokenise over one line (tokenise_line);
--                Comments is its loop over the lines and the removal of comments.
--                Element is struct element as a tree; Cursor and Parser are parse_type and
--                the loop of parse_compound (parse_members);
--                Definitions is build_type_list and parse; Syntax has the types as trees with
--                their tokens; Syntax/Meaning is the elements that they mean, as a specification
--                without the operations of the parser. Cells and Renderer are render_element, the
--                list of out-of-line elements and the two passes of render, with the entries of the
--                table as cells.
--   Listcerts    listcerts/listcerts.c: PrintCerts and its walk over signature lists; Actions has the
--                functions that the decoder calls, with tmpbuf, over the registry of Oid; Main is
--                get_variable, OutputVariable and efi_main behind get_args.
-- The other tools:
--   Crashvars    clearcrashvars/clearcrashvars.c: ClearCrashVars (build and drain are its loops, on a
--                list by gnu-efi's macros, the parameter ListMacros) and efi_main behind get_args.
--   Links        showhotkeys/efilink.c: doubly linked rings on a store of both links, in the order of
--                the writes; Links/Ring says what a ring with given entries is.
--                Links/Pool is the blocks of the entries with names that Crashvars and Hotkeys keep.
--   Hotkeys      showhotkeys/showhotkeys.c: the enumeration of the variables (build), the sort of the
--                list as it is built (sort_loop), its print (drain), and efi_main behind get_args.
--                Hotkeys/Order is the list that it stands for.
--   Smbios       showfirmware/showfirmware.c: LibGetSmbiosString, LibGetSmbiosStructure and efi_main
--                on a memory of bytes; Smbios/Layout is the layout of a table, as a specification.
--   Edid         showedid/showedid.c and efi_edid.h: CheckForValidEdid, PrintEdid and its parts,
--                Integer2AsciiString, Float2AsciiString on the bits of a float (Edid/Float), and efi_main
--                (Edid/Main).
--   Memory       efimemory/efimemory.c: memory_type_to_str, the allocation loop of memory_map, the
--                walk of print_memory_map.
--   Bootnext     bootnext/bootnext.c: check_arg and efi_main behind get_args.
--   Shellopt     shellopt/shellopt.c: the loop over the options, with its buffer, and efi_main behind
--                get_args.
--   Secure       showsb/showsb.c and showlenovo/showlenovo.c: efi_main behind get_args, which share
--                the reads of the Secure Boot variables (show_secure_boot).
--   Var          var/var.c: efi_main behind get_args.
--   Uefi         what the tools ask of the firmware, an interface.
--   Base         shared names, Boolean tests, lists; Tests has runs and instances of the theorems.
--
-- Numbers are natural numbers, with the wrap-around of a fixed width written out. A step that is
-- undefined in C, such as a read outside an array or a division by zero, is a result of its own
-- (data_fault, machine_fault, fault, out_of_bounds, past_argv, null_read, unset_list, behind_list,
-- bad_shift, bad_negation, none of integer_2_ascii_string, read_past, no_tag_name, faulty, and
-- overflow for a write). Code outside the repository is a parameter: the action functions, gnu-efi's
-- SPrint, StrCmp, StrnCmp, StrSize, StrLwr, xtoi, CompareGuid, CompareMem, AllocateZeroPool,
-- LibGetVariable, FreePool and the macros of efilink.h, the C library in Grammar (memcmp, strcmp,
-- strtoul, bsearch, the character classes), the firmware. In Grammar the index of types is a
-- parameter, as a search for a token, and so are the elements of the types for the renderer.
--
-- Fuel: find_indefinite_length has a round for each byte, since each round moves the cursor;
-- lookup_oid has one more than the registry has entries, since each round shortens the range;
-- Sprint_OID and tokenise_line have a step for each byte. That this is enough is part of their
-- theorems. asn1_ber_decoder runs on any fuel, because byte code may loop for ever.
-- Integer2AsciiString has ten digits, enough for 32 bits. The parser of types and the loops of
-- clearcrashvars, showhotkeys, showfirmware and PrintCerts have fuel, and theorems say how much is
-- enough; the sort of showhotkeys has two turns for each entry of the list and one more; the
-- renderer runs on any fuel, because a type that refers to itself once is rendered for ever, and so
-- does the removal of comments, which may not end.
--
-- Not modelled: floating point arithmetic (the float of a gamma); of asn1_compiler the sorted index
-- and the text of the output files; and the tools that only make one call and print (qv,
-- helloworld). showfirmware/SmBios.h is a copy of a header of EDK2; its fields are read by their
-- offsets.
pub mod Base
pub mod Ber
pub mod Oid
pub mod Grammar
pub mod Listcerts
pub mod Crashvars
pub mod Hotkeys
pub mod Links
pub mod Edid
pub mod Uefi
pub mod Var
pub mod Memory
pub mod Bootnext
pub mod Shellopt
pub mod Secure
pub mod Smbios
pub mod Tests
