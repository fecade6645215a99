-- ===== src/Lib.antt =====
-- SoftHSMv2 in this repository keeps cryptographic tokens in software and offers them through PKCS#11.
-- This library models the part of SoftHSMv2/src/lib that decides who may do what: sessions and their
-- handles, the login state of a token, the wrapping of a token's master key under its PINs, and the
-- attributes of objects, with the checks on reading and changing them.
--
-- Parts, each with the C++ file it translates (paths from the repository's root):
--   Access      SoftHSMv2/src/lib/access.cpp: read and write access by session state.
--   HandleMgr   SoftHSMv2/src/lib/handle_mgr: the table from handles to sessions and objects.
--   ByteString  SoftHSMv2/src/lib/data_mgr/ByteString.cpp: byte strings and their serialisation.
--   SecureData  SoftHSMv2/src/lib/data_mgr/SecureDataManager.cpp, RFC4880.cpp: the master key, encrypted
--               under each PIN and masked in memory.
--   Token       SoftHSMv2/src/lib/slot_mgr/Token.cpp: logins and PINs over a stored token and its data
--               manager.
--   Session     SoftHSMv2/src/lib/session_mgr/Session.cpp: a session's state and running operation.
--   SessionMgr  SoftHSMv2/src/lib/session_mgr/SessionManager.cpp: the table of sessions, which logs a
--               token out when its last session is closed.
--   SessionObjects  SoftHSMv2/src/lib/object_store/SessionObjectStore.cpp, SessionObject.cpp: the objects
--               that live as long as a session, and which closing and logging out invalidate.
--   OsObject    SoftHSMv2/src/lib/object_store/OSAttribute.h, OSObject.h: attribute values, and the
--               interface of a stored object with its contract. SessionObjects/Attributes and ObjectFile
--               fill it.
--   ObjectFile  SoftHSMv2/src/lib/object_store/ObjectFile.cpp: the attributes and the transactions of a token
--               object, over its file.
--   P11Attributes  SoftHSMv2/src/lib/P11Attributes.h, P11Attributes.cpp: Table has the classes of attributes,
--               Steps and Rules their updateAttr, Update and Retrieve the guards in front of writing and reading.
--   P11Objects  SoftHSMv2/src/lib/P11Objects.cpp: Init has the classes of objects, each with its attributes,
--               Templates loadTemplate and saveTemplate; Factory is newP11Object of SoftHSM.cpp.
--   FindOperation  SoftHSMv2/src/lib/object_store/FindOperation.cpp: the handles that a search still holds.
--   Api         SoftHSMv2/src/lib/SoftHSM.cpp: the handlers that open and close sessions, log in and log
--               out. A handler finds the session by its handle in HandleMgr, asks SessionMgr, which
--               changes the token, and tells HandleMgr and SessionObjects what ended. Api/Objects has the
--               handlers that read, change and destroy an object, Api/Find those of a search, Api/Pins those of
--               tokens and PINs. Those of objects ask
--               Access, make the PKCS#11 object with P11Objects/Factory and call its templates.
-- Common has the names they share, Cryptoki the constants of PKCS#11, Crypto the interface of the
-- cryptographic backend, Token/Store that of a stored token, Session that of a token as sessions see
-- it (TokenView, which Token/View fills), Api that of a token as the handlers see it (TokenOps, which
-- Api/Tokens fills). Tests applies the theorems at concrete inputs.
--
-- Functions carry the source's names in snake case. A method that changes its object takes it last and
-- returns it last, after the return value. A mutex makes each method one step, so a sequence of calls
-- is a list of operations (HandleMgr/Run, Token/Exclusive) or a relation between states (SessionObjects/Run,
-- Api/ReadOnly). A handler of Api is one step as well: two threads inside handlers at once are not modelled. Pointers are numbers and NULL is 0 where
-- only their identity counts; a std::map keyed by numbers is an association list. CK_ULONG is 64 bits:
-- the handle counter and the length fields are written with the wrap at 2 ^ 64, and a theorem that needs
-- room below it says so. Every loop is structural recursion on a list or a count; only the
-- caller of C_FindObjects in FindOperation/Pages has a bound on its calls, one more than the handles.
--
-- The random number generator, SHA-256 and AES-CBC stand for OpenSSL or Botan and are parameters
-- (Crypto.Crypto) with the laws CryptoLaws: a random string has the length asked for, and decryption
-- undoes encryption under the same key and IV. The stored token is a parameter (Token.Store.TokenStore)
-- with StoreLaws. Tests/Fixtures has instances of all of them. A stored object is a parameter
-- (OsObject.OsObject) with the laws OsObjectLaws, TransactionLaws and, where aborts load back the previous
-- version, RollbackLaws. Session objects fill the first two; object files fill all three, on a file that can be
-- written and read back. That file is a parameter (ObjectFile.ObjectDisk) with the laws ObjectDiskLaws. The
-- token's cipher, the key check values and the place of a CK_ATTRIBUTE array in memory are the parameter
-- P11Attributes.Context; there the cipher is a function of its input, without the fresh IV of each call. Memory behind a pointer is the list of the bytes from there on.
--
-- Not modelled: the format of token files and of the database, changes of a token file by another process, the adapters to the backends,
-- configuration, logging, allocation failures, the command line tools, the TPM plug-in and utilities,
-- and the handlers of SoftHSM.cpp that create and copy objects and that use keys. In Api a handle
-- whose pointer leads to no session is answered like an unknown one, and a search goes through the objects
-- in the order of the lists that stand for sets of pointers.
pub mod Common
pub mod Cryptoki
pub mod Access
pub mod HandleMgr
pub mod ByteString
pub mod Crypto
pub mod SecureData
pub mod Token
pub mod Session
pub mod SessionMgr
pub mod SessionObjects
pub mod OsObject
pub mod P11Attributes
pub mod P11Objects
pub mod FindOperation
pub mod Api
pub mod ObjectFile
pub mod Tests
