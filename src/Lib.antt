-- ===== src/Lib.antt =====
-- Verification of memcove.
--
-- Memcove (src/memcove) gives agents a memory: every caller is resolved to a tenant namespace,
-- data sets are Iceberg tables under a label of that namespace, a registry keeps their metadata,
-- and SQL over them passes a guard before it reaches Trino. A reconciler repairs what a crash
-- left between the table and its registry row.
--
-- Common holds the shared texts, lists, the classes of src/memcove/core/errors.py with a result
-- type, and a state monad. Config is src/memcove/core/config.py. Unicode has the parameters for
-- Python's string tables, with their laws on ASCII, and strip, split and partition. Naming is
-- src/memcove/core/naming.py (validate_label). Tenancy is src/memcove/core/tenancy.py:
-- normalize_tenant in Tenancy/Normalize, resolve_tenant in Tenancy, the token path in
-- Tenancy/Claims. SqlGuard is src/memcove/core/sql_guard.py: validate_select over the interface
-- Sqlglot of SqlGuard/Parser, an abstract syntax tree with the nodes, tables and CTE aliases that
-- the guard reads. Registry is src/memcove/core/registry.py over
-- src/memcove/core/registry_backends.py: Registry/Schema has the tables and the statements,
-- Registry/Session the transactions, Registry the operations, Registry/Backends the choice of the
-- backend, Registry/Ddl the tables that each dialect creates, Registry/Init init_db,
-- Registry/MySql the statements that MySQL has of its own, Registry/Collation two tags that a
-- collation takes for the same, and Registry/Drivers what each backend translates for its driver.
-- Reconciler is src/memcove/reconciler.py: Reconciler/Plan has plan_namespace, Reconciler the
-- sweep; Reconciler/Quiet, Presence and Step follow one label through a sweep in which no
-- database call raises and no table comes back, and Reconciler/Grace follows it through many.
-- Catalog is src/memcove/core/catalog.py over the interface Iceberg of Catalog/Lakehouse. World
-- pairs the state of the lakehouse, which the engine shares, with that of the registry. Trino is
-- src/memcove/core/trino_client.py over the interface Engine: one statement run as a user;
-- Trino/Types has the types of Arrow, Trino/Stream the batches. Models is
-- src/memcove/core/models.py. Tickets is src/memcove/data_plane/tickets.py over the interface
-- Codec of Tickets/Encoding. Flight is src/memcove/data_plane/flight_server.py: do_put writes
-- through Catalog and Registry, do_get through SqlGuard, both behind a ticket that Tickets
-- verifies. Scratch is src/memcove/core/scratch.py. Query is src/memcove/tools/query.py with
-- wrap_preview; it sends the engine what SqlGuard returns. Objects is
-- src/memcove/tools/objects.py and Derive is src/memcove/tools/derive.py, both over Catalog,
-- Registry and Trino. Ingest is src/memcove/tools/ingest.py, with the sources in Ingest, the
-- writes in Ingest/Object, the literals of the scratchpad in Ingest/Literals, and the decoders of
-- src/memcove/core/arrow_io.py and resolve and the URI split of src/memcove/core/storage.py.
-- Discovery is src/memcove/tools/discovery.py, and Artifacts is src/memcove/tools/artifacts.py
-- over the interface Storage. Server is src/memcove/server.py: who calls, what a caller may
-- address, and the tools, which hand out tickets of Tickets for Flight. Oauth is the verifier and
-- the acceptance of a token in src/memcove/core/oauth.py, whose claims Tenancy/Claims resolves;
-- Server/Auth is how the server is started with it. Clients is what the settings make of each
-- client, in src/memcove/core/storage.py, catalog.py, trino_client.py and registry_backends.py,
-- and Storage is the operations of src/memcove/core/storage.py over the interface ObjectStore.
-- Startup is the three programs: the mains of src/memcove/server.py,
-- src/memcove/data_plane/flight_server.py and src/memcove/reconciler.py.
--
-- A text is the list of its code points. A set of labels is a sorted list without repetitions. A
-- registry transaction takes its faults from a list in the state: each statement, connection and
-- commit consumes one entry and raises it, so a theorem over all lists covers failure at any
-- point. A commit that raises is taken to be rolled back; one that takes effect without an answer
-- is not covered. What the building of the backend raises counts as raised by the connection, but
-- for the guarded write, where it comes before the try. The live answers that the reconciler
-- meets are a list as well. The engine may do anything to the lakehouse, and may raise; that it
-- leaves the registry alone is in its type. An absent list of tags is the empty list. Loops run
-- over lists, but for the digits of a number (Common/Strings) and the chunks of a cursor
-- (Trino/Stream), which run on more fuel than the number and than the count of the rows.
--
-- Not modelled: the MCP registration and the liveness probe of server.py, logging and audit
-- lines, the base64 form of tickets, the benchmarks and the scripts, connection pools, and the
-- contents of error messages. Clocks are numbers in the state; floats are avoided by writing the
-- deletion cap ratio as a fraction and the timeout of the pool in milliseconds. Whether a
-- database takes a CREATE TABLE back in a rollback is a parameter of init_db. Which tags count as
-- the same, in the primary key and in a filter by tags, is a field of the tables, the collation,
-- since the default one of MySQL ignores case and accents; tenants and labels are in lower case
-- and compare by their characters. The reads of the catalog (table_exists, load_table) do not
-- raise for any reason but a missing table, and one schema of a table stands for what as_arrow
-- and str of the type of a field give.
pub mod Common
pub mod Config
pub mod Unicode
pub mod Naming
pub mod Tenancy
pub mod SqlGuard
pub mod Registry
pub mod Reconciler
pub mod Catalog
pub mod World
pub mod Trino
pub mod Tickets
pub mod Flight
pub mod Models
pub mod Scratch
pub mod Query
pub mod Objects
pub mod Derive
pub mod Ingest
pub mod Discovery
pub mod Artifacts
pub mod Oauth
pub mod Server
pub mod Clients
pub mod Storage
pub mod Startup
